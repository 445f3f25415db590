-- ===== src/MockRepo.antt =====
-- cmd/convertor/testingresources/local_repo.go: a repository of the tests' registry, whose blobs are in
-- memory, and below them in a directory with the OCI layout, if it has one.
pub mod Sound
use accelerated_container_im.Base.{
  String, Bool, true, false, not, ◌&&◌, ◌||◌, Option, none, some, List, [], ◌∷◌, ◌==◌, string_eq,
  if◌then◌else◌,
}
use accelerated_container_im.Base.Dict.{Dict, lookup, insert}
use accelerated_container_im.Base.Int.{ℤ}
use accelerated_container_im.Convertor.Engine.{plain_descriptor}
use accelerated_container_im.Convertor.Registry.{is_manifest_type, is_index_type}
use accelerated_container_im.Host.Registry.{Descriptor, Manifest, Index}
use accelerated_container_im.Host.Types.{Error, Result, ok, err, not_found, failed}

-- What the repository calls: the digest and the size of a content, its JSON, and the store in a
-- directory (oras-go's oci.Store), whose loading may fail.
pub record Contents : Type 0 where
  pub digest_of : String → String
  pub size_of : String → ℤ
  pub manifest_of : String → Manifest
  pub index_of : String → Index
  pub store_opens : Bool
  pub store_resolve : String → Result Descriptor
  pub store_fetch : Descriptor → Result String
  pub store_exists : Descriptor → Result Bool

-- RepoStore with its inmemoryRepo; `in_memory_only` stands for the two options of this meaning.
pub record RepoStore : Type 0 where
  pub has_path : Bool
  pub in_memory_only : Bool
  pub ignores_layers : Bool
  pub blobs : Dict String
  pub tags : Dict String

module _ (C : Contents) where
  -- LoadStore in front of `k`
  abbrev with_store {ℓ} : {A : Type ℓ} → RepoStore → Result A → Result A
  with_store r k = if r.has_path && C.store_opens then k else err failed

  -- Resolve
  unfoldable pub mock_resolve : RepoStore → String → Result Descriptor
  unfolding lookup
  mock_resolve r tag =
      let below = if r.in_memory_only then err not_found else with_store r (C.store_resolve tag) in
      elim (lookup tag r.tags) [
        | none ↦ below
        | some digest ↦ elim (lookup digest r.blobs) [
          | none ↦ below
          | some blob ↦
              ok (plain_descriptor (C.manifest_of blob).media_type (digest, C.size_of blob))
        ]
      ]

  -- Fetch
  unfoldable pub mock_fetch : RepoStore → Descriptor → Result String
  unfolding lookup
  mock_fetch r desc = elim (lookup desc.digest r.blobs) [
    | some blob ↦ ok blob
    | none ↦ if r.in_memory_only then err not_found else with_store r (C.store_fetch desc)
  ]

  -- Exists
  unfoldable pub mock_exists : RepoStore → Descriptor → Result Bool
  unfolding lookup
  mock_exists r desc = elim (lookup desc.digest r.blobs) [
    | some blob ↦ ok true
    | none ↦ if r.in_memory_only then ok false else with_store r (C.store_exists desc)
  ]

  -- The two loops of Push: whether all of the descriptors exist.
  unfoldable pub all_there : RepoStore → List Descriptor → Result (Unit {0})
  all_there r [] = ok tt
  all_there r (d ∷ ds) =
      let rest = all_there r ds in
      elim (mock_exists r d) [ err e ↦ err e | ok there ↦ if there then rest else err failed ]

  -- What a content of a media type refers to.
  unfoldable pub referred : String → String → List Descriptor
  unfolding is_manifest_type is_index_type
  referred media_type content =
      if is_manifest_type media_type
      then (C.manifest_of content).layers
      else if is_index_type media_type
      then (C.index_of content).manifests
      else []

  -- The stores of Push behind its checks.
  unfoldable pub stored_blob_in : RepoStore → Descriptor → String → String → RepoStore
  unfolding insert is_manifest_type is_index_type string_eq
  stored_blob_in r desc tag content = record r {
    blobs = insert desc.digest content r.blobs;
    tags =
        if (is_manifest_type desc.media_type || is_index_type desc.media_type) && not (tag == "")
        then insert tag desc.digest r.tags
        else r.tags;
  }

  -- Push: the digest is checked, and what a new manifest or index refers to must exist.
  unfoldable pub mock_push : RepoStore → Descriptor → String → String → Result RepoStore
  unfolding string_eq stored_blob_in referred
  mock_push r desc tag content = elim (mock_exists r desc) [
    | err e ↦ err e
    | ok there ↦
        if not (C.digest_of content == desc.digest)
        then err failed
        else if r.ignores_layers || there
        then ok (stored_blob_in r desc tag content)
        else elim (all_there r (referred desc.media_type content)) [
          | err e ↦ err e
          | ok _ ↦ ok (stored_blob_in r desc tag content)
        ]
  ]
