-- ===== src/Convertor/Overlaybd/Marks.antt =====
-- What the engine records of a layer that it reuses (overlaybd_builder.go).
use accelerated_container_im.Base.{
  ℕ, zero, suc, String, ◌<>◌, ◌≡◌, refl, ap, ◌∙◌, true, false, not, ◌&&◌, some, List, [], ◌∷◌,
  arith, ◌==◌, string_eq,
}
use accelerated_container_im.Base.Int.{ℤ}
use accelerated_container_im.Base.Lists.{get_elem?, set}
use accelerated_container_im.Convertor.Engine.{Base}
use accelerated_container_im.Convertor.Overlaybd.{
  Work, LayerResult, four_digits, layer_dir, result_of, check_digest, upload_layer,
}
use accelerated_container_im.Convertor.Overlaybd.Dedup.{download_converted_layer}
use accelerated_container_im.Convertor.Registry.{download_layer, get_file_desc}
use accelerated_container_im.Host.{History, Host, remove, hash_file}
use accelerated_container_im.Host.Exec.{act, ignore, after_error, continue, pure, on_option, ◌>>=◌}
use accelerated_container_im.Host.Registry.{Descriptor}
use accelerated_container_im.Host.Returns.{
  Returns, Returns-ask, Returns-pure, Returns-fail, Returns-bind, Returns-bind_of, Returns-if_of,
}
use accelerated_container_im.Host.Types.{Result, ok, err}

get_elem?-set :
    (xs : List LayerResult) (i : ℕ) (x y : LayerResult)
    → get_elem? xs i ≡ some x
    → get_elem? (set xs i y) i ≡ some y
get_elem?-set [] i x y e = absurd (ground (arith, e))
get_elem?-set (z ∷ xs) zero x y e = refl
get_elem?-set (z ∷ xs) (suc i) x y e = get_elem?-set xs i x y e

-- What a download of the converted layer `d` came to: it is recorded with its descriptor as a layer from
-- deduplication, or the last call removed the file.
abbrev pub Marked : ℕ → LayerResult → Descriptor → String → Result Work → History → Type 0
Marked idx r d file (ok v) h =
    get_elem? v.results idx ≡ some (record r { from_dedup = true; desc = d })
Marked idx r d file (err e) h = (before : History) × (h ≡ remove file ∷ before)

module _ (H : Host) (b : Base) (w : Work) (idx : ℕ) (r : LayerResult) (d : Descriptor)
    (file : String) where
  after-Marked :
      get_elem? w.results idx ≡ some r
      → (x : Result {0} (Unit {0})) (h : History)
      → Marked idx r d file
          (continue
            (after_error x (ignore (act H (remove file))) h).0
            (λ _.
              pure (record w {
                results = set w.results idx (record r { from_dedup = true; desc = d });
              }))
            (after_error x (ignore (act H (remove file))) h).1).0
          (continue
            (after_error x (ignore (act H (remove file))) h).0
            (λ _.
              pure (record w {
                results = set w.results idx (record r { from_dedup = true; desc = d });
              }))
            (after_error x (ignore (act H (remove file))) h).1).1
  unfolding ignore act pure
  after-Marked e (ok t) h = get_elem?-set w.results idx r _ e
  after-Marked e (err y) h = (h, refl)

module _ (H : Host) (b : Base) where
  -- DownloadConvertedLayer, on a layer that the image has: if it succeeds, the layer is recorded as one
  -- from deduplication with the given descriptor and its chain ID; if it fails, its last call removes the
  -- commit file, so that the layer can be built in its place.
  pub download_converted_layer-Marked :
      (w : Work) (idx : ℕ) (l : Descriptor) (r : LayerResult) (d : Descriptor) (h : History)
      → get_elem? w.manifest.layers idx ≡ some l
      → get_elem? w.results idx ≡ some r
      → Marked idx r d
          ((b.work_dir <> "/" <> four_digits idx <> "_" <> l.digest) <> "/overlaybd.commit")
          (download_converted_layer H b w idx d h).0
          (download_converted_layer H b w idx d h).1
  unfolding download_converted_layer ◌>>=◌ layer_dir result_of
  download_converted_layer-Marked w idx l r d h e1 e2 =
      let file = (b.work_dir <> "/" <> four_digits idx <> "_" <> l.digest) <> "/overlaybd.commit" in
      let (x, h') = download_layer H b.source_ref file d true h in
      rw (e1, e2) (after-Marked H b w idx r d file e2 x h')

  result_of-At :
      (w : Work) (idx : ℕ) (r : LayerResult)
      → get_elem? w.results idx ≡ some r
      → Returns (λ x. x ≡ r) (result_of H b w idx)
  unfolding result_of on_option
  result_of-At w idx r e = rw e (Returns-pure r refl)

  layer_dir-At :
      (layers : List Descriptor) (idx : ℕ) (l : Descriptor)
      → get_elem? layers idx ≡ some l
      → Returns
          (λ x. x ≡ b.work_dir <> "/" <> four_digits idx <> "_" <> l.digest)
          (layer_dir H b layers idx)
  unfolding layer_dir on_option
  layer_dir-At layers idx l e = rw e (Returns-pure _ refl)

  check_digest-Same :
      (r : LayerResult) (digest : String)
      → r.from_dedup ≡ true
      → Returns (λ _. digest ≡ r.desc.digest) (check_digest H b r digest)
  unfolding check_digest
  check_digest-Same r digest e =
      Returns-if_of (r.from_dedup && not (digest == r.desc.digest)) (λ y. Returns-fail _)
        (λ n. Returns-pure tt (ground (arith, e, n)))

  -- The host hashed the file to `digest` and `size`.
  abbrev pub Hashed : String → String → ℤ → Type 0
  Hashed file digest size =
      (before : History) × (H.content before (hash_file file false) ≡ ok (digest, size))

  get_file_desc-Hashed :
      (file : String) → Returns (λ x. Hashed file x.0 x.1) (get_file_desc H file false)
  unfolding get_file_desc
  get_file_desc-Hashed file = Returns-ask _ _ (λ h x e. (h, e))

  -- UploadLayer, on a layer from deduplication that the image has, succeeds only if it hashed the layer's
  -- commit file and the hash is the digest of the converted layer that was found; this then stays the
  -- recorded digest, with the size of the file, and the chain ID stays too.
  pub upload_layer-Same :
      (w : Work) (idx : ℕ) (l : Descriptor) (r : LayerResult)
      → get_elem? w.manifest.layers idx ≡ some l
      → get_elem? w.results idx ≡ some r
      → r.from_dedup ≡ true
      → Returns
          (λ v.
            (x : LayerResult) × (get_elem? v.results idx ≡ some x)
            × Hashed
                ((b.work_dir <> "/" <> four_digits idx <> "_" <> l.digest) <> "/overlaybd.commit")
                r.desc.digest
                x.desc.size
            × (x.desc.digest ≡ r.desc.digest)
            × (x.chain_id ≡ r.chain_id))
          (upload_layer H b w idx)
  unfolding upload_layer
  upload_layer-Same w idx l r at e f =
      Returns-bind_of _ (layer_dir-At w.manifest.layers idx l at) (λ dir d.
        Returns-bind_of _ (get_file_desc-Hashed (dir <> "/overlaybd.commit")) (λ found k.
          Returns-bind_of _ (result_of-At w idx r e) (λ x p.
            Returns-bind_of _ (check_digest-Same x found.0 (ap (λ y. y.from_dedup) p ∙ f)) (λ _ q.
              let same : found.0 ≡ r.desc.digest = q ∙ ap (λ y. y.desc.digest) p in
              Returns-bind _ (λ _. Returns-pure _ (
                _,
                get_elem?-set w.results idx r _ e,
                (k.0, rw⁻¹ d (rw⁻¹ same k.1)),
                same,
                ap (λ y. y.chain_id) p,
              ))))))
