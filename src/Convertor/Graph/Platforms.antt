-- ===== src/Convertor/Graph/Platforms.antt =====
-- What a converted index lists (builder.go), against the index that it is made from.
use accelerated_container_im.Base.{
  ℕ, zero, suc, ◌≡◌, refl, inl, inr, Bool, true, false, some, ◌⊎◌, List, [], ◌∷◌, arith,
}
use accelerated_container_im.Base.Dict.{lookup}
use accelerated_container_im.Base.Lists.{All, none_left, both}
use accelerated_container_im.Convertor.Graph.{
  Options, is_attestation_manifest, without_attestations, with_content, build_one, process_all,
  process, final_index, upload_index, process_index,
}
use accelerated_container_im.Convertor.Registry.{is_manifest_type}
use accelerated_container_im.Host.{Host, History, read_blob}
use accelerated_container_im.Host.Registry.{Descriptor, Index}
use accelerated_container_im.Host.Types.{ok}
use accelerated_container_im.Host.Returns.{
  Returns, Returns-ask, Returns-bind, Returns-weaken, Returns-bind_of, Returns-if_of, Returns-pure,
  returns_rules,
}

-- `d` describes other content than `src`, but has its platform and its annotations.
abbrev pub SameLabels : Descriptor → Descriptor → Type 0
SameLabels src d = (d.platform ≡ src.platform) × (d.annotations ≡ src.annotations)

-- The annotation that marks an attestation.
abbrev pub Attests : Descriptor → Type 0
Attests m = lookup "vnd.docker.reference.type" m.annotations ≡ some "attestation-manifest"

-- `ds` has an entry for each entry of `ms` that is no attestation, in their order, with its platform and
-- its annotations, and no other entry.
pub data Listed : List Descriptor → List Descriptor → Type 0 where
  nothing : Listed [] []
  left_out :
      {m : Descriptor} {ms ds : List Descriptor} → Attests m → Listed ms ds → Listed (m ∷ ms) ds
  entered :
      {m d : Descriptor} {ms ds : List Descriptor}
      → ¬ Attests m
      → SameLabels m d
      → Listed ms ds
      → Listed (m ∷ ms) (d ∷ ds)

with_content-SameLabels : (src d : Descriptor) → SameLabels src (with_content src d)
with_content-SameLabels src d = (refl, refl)

is_attestation-Attests : (m : Descriptor) → is_attestation_manifest m ≡ true → Attests m
unfolding is_attestation_manifest
is_attestation-Attests m e = ground (arith, e)

not_attestation-Attests : (m : Descriptor) → is_attestation_manifest m ≡ false → ¬ Attests m
unfolding is_attestation_manifest
not_attestation-Attests m e a = absurd (ground (arith, e, a))

-- An entry that keeps its labels is an attestation if it was one.
is_attestation-SameLabels :
    (src d : Descriptor)
    → SameLabels src d
    → is_attestation_manifest d ≡ is_attestation_manifest src
unfolding is_attestation_manifest
is_attestation-SameLabels src d (p, a) = rw a refl

attestation-Listed :
    (m : Descriptor) {ms : List Descriptor} (ds : List Descriptor)
    → is_attestation_manifest m ≡ true
    → Listed ms (without_attestations ds)
    → Listed (m ∷ ms) (without_attestations (m ∷ ds))
unfolding without_attestations
attestation-Listed m ds e l = rw e (left_out (is_attestation-Attests m e) l)

image-Listed :
    (m d : Descriptor) {ms : List Descriptor} (ds : List Descriptor)
    → is_attestation_manifest m ≡ false
    → SameLabels m d
    → Listed ms (without_attestations ds)
    → Listed (m ∷ ms) (without_attestations (d ∷ ds))
unfolding without_attestations
image-Listed m d ds e s l =
    rw (is_attestation-SameLabels m d s, e) (entered (not_attestation-Attests m e) s l)

abbrev pub IsImage : Descriptor → Type 0
IsImage m = is_manifest_type m.media_type ≡ true

unmarked-IsImage :
    (m : Descriptor) → Attests m ⊎ IsImage m → is_attestation_manifest m ≡ false → IsImage m
unmarked-IsImage m (inl a) e = absurd (not_attestation-Attests m e a)
unmarked-IsImage m (inr i) e = i

module _ (H : Host) (o : Options) where
  build_one-SameLabels :
      (src : Descriptor) (tag : Bool) → Returns (SameLabels src) (build_one H o src tag)
  unfolding build_one
  build_one-SameLabels src tag = search (returns_rules, with_content-SameLabels) depth 12

  process-SameLabels :
      (depth : ℕ) (src : Descriptor) (tag : Bool)
      → IsImage src
      → Returns (SameLabels src) (process H o depth src tag)
  unfolding process
  process-SameLabels zero src tag e = rw e (build_one-SameLabels src tag)
  process-SameLabels (suc depth) src tag e = rw e (build_one-SameLabels src tag)

  process_all-Listed :
      (depth : ℕ) (ms : List Descriptor)
      → All (λ m. Attests m ⊎ IsImage m) ms
      → Returns
          (λ ds. Listed ms (without_attestations ds))
          (process_all H o (λ m. process H o depth m false) ms)
  unfolding process_all without_attestations
  process_all-Listed depth [] none_left = Returns-pure _ nothing
  process_all-Listed depth (m ∷ ms) (both p a) =
      let rest = process_all-Listed depth ms a in
      Returns-if_of (is_attestation_manifest m)
        (λ e. Returns-bind_of _ rest (λ ds l. Returns-pure _ (attestation-Listed m ds e l)))
        (λ e.
          Returns-bind_of _ (process-SameLabels depth m false (unmarked-IsImage m p e))
            (λ d s. Returns-bind_of _ rest (λ ds l. Returns-pure _ (image-Listed m d ds e s l))))

  -- `d` describes an index that lists what the host reads as the index `src`.
  abbrev pub Reindexed : Descriptor → Descriptor → Type 0
  Reindexed src d =
      (source : Index) × (final : Index) × (before : History) × (H.index before (read_blob src)
        ≡ ok source)
      × Listed source.manifests final.manifests
      × (d.digest ≡ (H.encode_index final).0)
      × (d.size ≡ (H.encode_index final).1)

  upload_index-desc :
      (index : Index) (tag : Bool)
      → Returns
          (λ d. (d.digest ≡ (H.encode_index index).0) × (d.size ≡ (H.encode_index index).1))
          (upload_index H o index tag)
  unfolding upload_index
  upload_index-desc index tag =
      Returns-bind _ (λ _. Returns-bind _ (λ _. Returns-pure _ (refl, refl)))

  -- If all entries of an index are images or attestations, the descriptor that its conversion returns has
  -- the digest and the size of an index with one entry for each image of the source's index, in their
  -- order and with the image's platform and annotations, and no entry for an attestation nor any other.
  pub process_index-Reindexed :
      (depth : ℕ) (src : Descriptor) (tag : Bool)
      → ((h : History) (index : Index)
          → H.index h (read_blob src) ≡ ok index
          → All (λ m. Attests m ⊎ IsImage m) index.manifests)
      → Returns (Reindexed src) (process_index H o (λ m. process H o depth m false) src tag)
  unfolding process_index
  process_index-Reindexed depth src tag k = Returns-bind _ (λ _.
      Returns-bind_of {Q = λ index. (h : History) × (H.index h (read_blob src) ≡ ok index)} _
        (Returns-ask _ _ (λ h index e. (h, e)))
        (λ index (h, e).
          Returns-bind_of _ (process_all-Listed depth index.manifests (k h index e)) (λ done l.
            Returns-weaken
              (λ d (digest, size). (index, final_index H o src index done, h, e, l, digest, size))
              (upload_index-desc (final_index H o src index done) tag))))
