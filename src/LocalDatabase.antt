-- ===== src/LocalDatabase.antt =====
-- cmd/convertor/testingresources/local_db.go: the conversion database in memory. Each operation holds
-- the lock of the list that it works on.
pub mod Refinement
use accelerated_container_im.Base.{
  ℕ, zero, suc, ◌-◌, String, Bool, ◌&&◌, Option, none, some, List, [], ◌∷◌, ◌++◌, ◌==◌, string_eq,
  if◌then◌else◌, ltb,
}
use accelerated_container_im.Base.Int.{ℤ}
use accelerated_container_im.Base.Lists.{length, get_elem?, take, drop}
use accelerated_container_im.Host.Registry.{LayerEntry, ManifestEntry}

-- The fields that name a layer: host, repository and chain ID.
pub record LayerKey : Type 0 where
  pub in_host : String
  pub in_repository : String
  pub of_chain : String

-- The fields that name a manifest.
pub record ManifestKey : Type 0 where
  pub at_host : String
  pub at_repository : String
  pub with_type : String
  pub of_original : String

-- The conditions of the loops.
unfoldable pub is_layer : LayerKey → LayerEntry → Bool
unfolding string_eq
is_layer key entry =
    entry.host == key.in_host
    && (entry.chain_id == key.of_chain && entry.repository == key.in_repository)

unfoldable pub is_layer_anywhere : String → String → LayerEntry → Bool
unfolding string_eq
is_layer_anywhere host chain_id entry = entry.host == host && entry.chain_id == chain_id

unfoldable pub is_manifest : ManifestKey → ManifestEntry → Bool
unfolding string_eq
is_manifest key entry =
    entry.host == key.at_host
    && (entry.original_digest == key.of_original
        && (entry.repository == key.at_repository && entry.media_type == key.with_type))

unfoldable pub is_manifest_anywhere : String → String → String → ManifestEntry → Bool
unfolding string_eq
is_manifest_anywhere host media_type original entry =
    entry.host == host && (entry.original_digest == original && entry.media_type == media_type)

module _ {ℓ} {A : Type ℓ} (p : A → Bool) where
  unfoldable pub first_where : List A → Option A
  first_where [] = none
  first_where (x ∷ xs) = if p x then some x else first_where xs

  unfoldable pub all_where : List A → List A
  all_where [] = []
  all_where (x ∷ xs) = let rest = all_where xs in if p x then x ∷ rest else rest

  unfoldable pub without_first : List A → List A
  without_first [] = []
  without_first (x ∷ xs) = let rest = without_first xs in if p x then xs else x ∷ rest

  -- `append(l[:i], l[i+1:]...)` on a slice of `live` elements of `array`, whose other elements stay.
  abbrev closed_up : ℕ → ℕ → List A → List A
  closed_up i live array =
      take i array ++ (take (live - suc i) (drop (suc i) array) ++ drop (live - 1) array)

  -- The loop that removes all matches from a slice while it ranges over it: `todo` elements of the
  -- array are left, from `i` on. A slice that starts behind its end makes it panic (`none`).
  unfoldable pub remove_ranging : ℕ → ℕ → ℕ → List A → Option (List A)
  remove_ranging zero i live array = some (take live array)
  remove_ranging (suc todo) i live array =
      let on = remove_ranging todo (suc i) live array in
      let removed = remove_ranging todo (suc i) (live - 1) (closed_up i live array) in
      elim (get_elem? array i) [
        | none ↦ none
        | some x ↦ if p x then if ltb live (suc i) then none else removed else on
      ]

-- localdb
pub record LocalDb : Type 0 where
  pub layer_records : List LayerEntry
  pub manifest_records : List ManifestEntry

-- CreateLayerEntry
unfoldable pub create_layer_record : LayerEntry → LocalDb → LocalDb
create_layer_record entry db = record db { layer_records = db.layer_records ++ (entry ∷ []) }

-- GetLayerEntryForRepo
unfoldable pub layer_record_for_repo : LayerKey → LocalDb → Option LayerEntry
unfolding first_where is_layer
layer_record_for_repo key db = first_where (is_layer key) db.layer_records

-- GetCrossRepoLayerEntries
unfoldable pub cross_repo_layer_records : String → String → LocalDb → List LayerEntry
unfolding all_where is_layer_anywhere
cross_repo_layer_records host chain_id db =
    all_where (is_layer_anywhere host chain_id) db.layer_records

-- DeleteLayerEntry: the first match goes.
unfoldable pub delete_layer_record : LayerKey → LocalDb → LocalDb
unfolding without_first is_layer
delete_layer_record key db = record db {
  layer_records = without_first (is_layer key) db.layer_records;
}

-- CreateManifestEntry
unfoldable pub create_manifest_record : ManifestEntry → LocalDb → LocalDb
create_manifest_record entry db = record db {
  manifest_records = db.manifest_records ++ (entry ∷ []);
}

-- GetManifestEntryForRepo
unfoldable pub manifest_record_for_repo : ManifestKey → LocalDb → Option ManifestEntry
unfolding first_where is_manifest
manifest_record_for_repo key db = first_where (is_manifest key) db.manifest_records

-- GetCrossRepoManifestEntries
unfoldable pub cross_repo_manifest_records : String → String → String → LocalDb → List ManifestEntry
unfolding all_where is_manifest_anywhere
cross_repo_manifest_records host media_type original db =
    all_where (is_manifest_anywhere host media_type original) db.manifest_records

-- DeleteManifestEntry: the loop goes on behind a match; `none` is a panic.
unfoldable pub delete_manifest_record : ManifestKey → LocalDb → Option LocalDb
unfolding remove_ranging is_manifest
delete_manifest_record key db =
    elim (remove_ranging (is_manifest key) (length db.manifest_records) 0
      (length db.manifest_records) db.manifest_records) [
        | some records ↦ some (record db { manifest_records = records })
        | none ↦ none
      ]
