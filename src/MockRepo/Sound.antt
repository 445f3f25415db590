-- ===== src/MockRepo/Sound.antt =====
-- What the blobs and tags of a repository in memory (cmd/convertor/testingresources/local_repo.go) are.
use accelerated_container_im.Base.{
  String, true, ◌≡◌, refl, ◌∙◌, ◌⊎◌, some, ◌==◌, string_eq, arith, Bool-cases, inl, inr,
  if◌then◌else◌,
}
use accelerated_container_im.Base.Dict.{lookup, lookup-insert}
use accelerated_container_im.Host.Registry.{Descriptor}
use accelerated_container_im.Host.Types.{ok}
use accelerated_container_im.MockRepo.{
  Contents, RepoStore, mock_fetch, mock_exists, all_there, referred, stored_blob_in, mock_push,
}

same_text : (s : String) → (s == s) ≡ true
same_text s = ground arith

module _ (C : Contents) where
  -- Every blob stands under its digest, and every tag names a blob.
  abbrev pub Sound : RepoStore → Type 0
  Sound r =
      ((digest blob : String) → lookup digest r.blobs ≡ some blob → C.digest_of blob ≡ digest)
      × ((tag digest : String)
          → lookup tag r.tags ≡ some digest
          → (blob : String) × (lookup digest r.blobs ≡ some blob))

  stored-addressed :
      (r : RepoStore) (desc : Descriptor) (tag content : String)
      → C.digest_of content ≡ desc.digest
      → ((digest blob : String) → lookup digest r.blobs ≡ some blob → C.digest_of blob ≡ digest)
      → (digest blob : String)
      → lookup digest (stored_blob_in C r desc tag content).blobs ≡ some blob
      → C.digest_of blob ≡ digest
  unfolding stored_blob_in
  stored-addressed r desc tag content e k digest blob x =
      ground (arith, e, k digest blob, x, lookup-insert digest desc.digest content r.blobs)

  stored-blobs :
      (r : RepoStore) (desc : Descriptor) (tag content digest : String)
      → lookup digest (stored_blob_in C r desc tag content).blobs
        ≡ (if digest == desc.digest then some content else lookup digest r.blobs)
  unfolding stored_blob_in
  stored-blobs r desc tag content digest = lookup-insert digest desc.digest content r.blobs

  -- A blob is there behind a store as well.
  still_there :
      (r : RepoStore) (desc : Descriptor) (tag content digest : String)
      → (digest ≡ desc.digest) ⊎ ((blob : String) × (lookup digest r.blobs ≡ some blob))
      → (blob : String) × (lookup digest (stored_blob_in C r desc tag content).blobs ≡ some blob)
  still_there r desc tag content digest k = elim (Bool-cases (digest == desc.digest)) [
    | inl e ↦ (content, rw (stored-blobs r desc tag content digest) (rw e refl))
    | inr e ↦ elim k [
      | inl same ↦ absurd (ground (arith, e, same))
      | inr (blob, p) ↦ (blob, rw (stored-blobs r desc tag content digest) (rw e p))
    ]
  ]

  tagged_before :
      (r : RepoStore) (desc : Descriptor) (tag content t digest : String)
      → lookup t (stored_blob_in C r desc tag content).tags ≡ some digest
      → (digest ≡ desc.digest) ⊎ (lookup t r.tags ≡ some digest)
  unfolding stored_blob_in
  tagged_before r desc tag content t digest x =
      ground (arith, x, lookup-insert t tag desc.digest r.tags)

  stored-tagged :
      (r : RepoStore) (desc : Descriptor) (tag content : String)
      → ((t digest : String)
          → lookup t r.tags ≡ some digest
          → (blob : String) × (lookup digest r.blobs ≡ some blob))
      → (t digest : String) → lookup t (stored_blob_in C r desc tag content).tags ≡ some digest
      → (blob : String) × (lookup digest (stored_blob_in C r desc tag content).blobs ≡ some blob)
  stored-tagged r desc tag content k t digest x =
      still_there r desc tag content digest (elim (tagged_before r desc tag content t digest x) [
        | inl e ↦ inl e
        | inr p ↦ inr (k t digest p)
      ])

  -- What a new manifest or index refers to is there.
  abbrev pub Complete : RepoStore → Descriptor → String → Type 0
  Complete r desc content =
      (r.ignores_layers ≡ true)
      ⊎ ((mock_exists C r desc ≡ ok true)
          ⊎ (all_there C r (referred C desc.media_type content) ≡ ok tt))

  mock_push-stored :
      (r pushed : RepoStore) (desc : Descriptor) (tag content : String)
      → mock_push C r desc tag content ≡ ok pushed
      → (pushed ≡ stored_blob_in C r desc tag content)
        × (C.digest_of content ≡ desc.digest)
        × Complete r desc content
  unfolding mock_push
  mock_push-stored r pushed desc tag content e = ground (arith, e)

  stored-Sound :
      (r : RepoStore) (desc : Descriptor) (tag content : String)
      → C.digest_of content ≡ desc.digest
      → Sound r
      → Sound (stored_blob_in C r desc tag content)
  stored-Sound r desc tag content e (a, t) =
      (stored-addressed r desc tag content e a, stored-tagged r desc tag content t)

  fetched_blob :
      (r : RepoStore) (desc : Descriptor) (blob : String)
      → lookup desc.digest r.blobs ≡ some blob
      → mock_fetch C r desc ≡ ok blob
  unfolding mock_fetch
  fetched_blob r desc blob e = ground (arith, e)

  stored-fetched :
      (r : RepoStore) (desc : Descriptor) (tag content : String)
      → mock_fetch C (stored_blob_in C r desc tag content) desc ≡ ok content
  stored-fetched r desc tag content =
      fetched_blob (stored_blob_in C r desc tag content) desc content
        (stored-blobs r desc tag content desc.digest ∙ rw (same_text desc.digest) refl)

  -- A push that succeeds, also of a blob that exists, keeps every blob in memory under its own digest and
  -- every tag on a blob, is followed by a fetch that gives the content back, and was of a content with the
  -- digest of its descriptor, whose layers or manifests all exist unless the repository ignores them or
  -- had it already.
  pub mock_push-Sound :
      (r pushed : RepoStore) (desc : Descriptor) (tag content : String)
      → Sound r
      → mock_push C r desc tag content ≡ ok pushed
      → Sound pushed
        × (mock_fetch C pushed desc ≡ ok content)
        × (C.digest_of content ≡ desc.digest)
        × Complete r desc content
  mock_push-Sound r pushed desc tag content s e =
      let (same, digest, complete) = mock_push-stored r pushed desc tag content e in
      rw same (
        stored-Sound r desc tag content digest s,
        stored-fetched r desc tag content,
        digest,
        complete,
      )
