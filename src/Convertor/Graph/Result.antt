-- ===== src/Convertor/Graph/Result.antt =====
-- The image that a conversion uploads (builder.go, overlaybd_builder.go and builder_engine.go).
use accelerated_container_im.Base.{
  ℕ, String, ◌<>◌, ◌≡◌, refl, sym, ap, ◌∙◌, ◌⊎◌, true, false, Bool-cases, inl, inr, List, [], ◌∷◌,
  map, arith,
}
use accelerated_container_im.Base.Lists.{length}
use accelerated_container_im.Convertor.Engine.{
  Base, manifest_descriptor, upload_manifest_and_config,
}
use accelerated_container_im.Convertor.Graph.{convert_layers}
use accelerated_container_im.Convertor.Graph.Layers.{layers-Grown}
use accelerated_container_im.Convertor.Overlaybd.{Work, LayerResult}
use accelerated_container_im.Convertor.Overlaybd.Finish.{
  set_diff_ids, result_descs, with_results, with_base, referring, new_engine, add_base_layer,
  upload_base_layer, upload_image,
}
use accelerated_container_im.Convertor.Overlaybd.Start.{new_engine-start}
use accelerated_container_im.Base.Int.{ℤ}
use accelerated_container_im.Host.{Host, History, pack_base_layer}
use accelerated_container_im.Host.Types.{ok}
use accelerated_container_im.Host.Exec.{◌>>=◌}
use accelerated_container_im.Host.Registry.{Descriptor, Manifest, Image}
use accelerated_container_im.Host.Returns.{
  Returns, Returns-ask, Returns-if_of, Returns-bind, Returns-bind_of, Returns-pure, returns_rules,
}

-- The digests of the layers are the diff IDs.
abbrev pub Paired : Work → Type 0
Paired w = map (λ l. l.digest) w.manifest.layers ≡ w.config.diff_ids

set_diff_ids-digests :
    (rs : List LayerResult) (ids : List String)
    → length ids ≡ length rs
    → map (λ l. l.digest) (result_descs rs) ≡ set_diff_ids rs ids
unfolding set_diff_ids
set_diff_ids-digests [] [] e = refl
set_diff_ids-digests [] (d ∷ ids) e = absurd (omega (arith, e))
set_diff_ids-digests (r ∷ rs) [] e = absurd (omega (arith, e))
set_diff_ids-digests (r ∷ rs) (d ∷ ids) e =
    ap {B = List String} (λ x. r.desc.digest ∷ x) (set_diff_ids-digests rs ids (omega (arith, e)))

length-result_descs : (rs : List LayerResult) → length (result_descs rs) ≡ length rs
length-result_descs [] = refl
length-result_descs (r ∷ rs) = omega (arith, length-result_descs rs)

with_results-Paired :
    (w : Work) → length w.config.diff_ids ≡ length w.results → Paired (with_results w)
with_results-Paired w e = set_diff_ids-digests w.results w.config.diff_ids e

with_base-Paired : (w : Work) (d : Descriptor) → Paired w → Paired (with_base w d)
with_base-Paired w d e = ap {B = List String} (λ x. d.digest ∷ x) e

referring-layers : (b : Base) (m : Manifest) → (referring b m).layers ≡ m.layers
referring-layers b m = elim (Bool-cases b.referrer) [ inl e ↦ rw e refl | inr e ↦ rw e refl ]

module _ (H : Host) (b : Base) where
  -- A converted image: the descriptor that is returned is of its manifest, whose configuration is its
  -- configuration.
  abbrev pub Described : Work × Descriptor → Type 0
  Described (w, d) =
      (d.digest ≡ (H.encode_manifest w.manifest).0)
      × (d.size ≡ (H.encode_manifest w.manifest).1)
      × (w.manifest.config.digest ≡ (H.encode_image w.config).0)
      × (w.manifest.config.size ≡ (H.encode_image w.config).1)

  -- `d` describes what the base layer was packed into.
  abbrev pub IsBase : Descriptor → Type 0
  IsBase d =
      (before : History) × (packed : String × ℤ) × (H.content before
          (pack_base_layer (b.work_dir <> "/ext4_64.tar"))
        ≡ ok packed)
      × (d.digest ≡ packed.0)
      × (d.size ≡ packed.1)

  -- `n` layers, and below them, unless a file system is made, the base layer.
  abbrev pub OnBase : ℕ → List Descriptor → Type 0
  OnBase n ls =
      ((b.mkfs ≡ true) × (length ls ≡ n))
      ⊎ ((b.mkfs ≡ false)
          × ((d : Descriptor) × (rest : List Descriptor) × (ls ≡ d ∷ rest)
              × IsBase d
              × (length rest ≡ n)))

  abbrev pub Matched : ℕ → Work → Type 0
  Matched n w = Paired w × OnBase n w.manifest.layers

  upload_base_layer-IsBase : Returns IsBase (upload_base_layer H b)
  unfolding upload_base_layer
  upload_base_layer-IsBase = Returns-bind _ (λ _. Returns-bind _ (λ _.
      Returns-bind_of _ (Returns-ask _ _ (λ h packed e. (h, packed, e, refl, refl)))
        (λ packed p. Returns-bind _ (λ _. Returns-pure _ p))))

  add_base-Matched :
      (n : ℕ) (w : Work)
      → Paired w
      → length w.manifest.layers ≡ n
      → Returns (Matched n) (add_base_layer H b w)
  unfolding add_base_layer
  add_base-Matched n w m c =
      Returns-if_of b.mkfs (λ e. Returns-pure w (m, inl (e, c)))
        (λ e.
          Returns-bind_of _ upload_base_layer-IsBase
            (λ d p. Returns-pure _ (with_base-Paired w d m, inr (e, (d, _, refl, p, c)))))

  upload_manifest-desc :
      (m : Manifest) (c : Image)
      → Returns (λ d. d ≡ manifest_descriptor H b m c) (upload_manifest_and_config H b m c)
  unfolding upload_manifest_and_config
  upload_manifest-desc m c = search returns_rules depth 12

  upload_image-Matched :
      (w : Work)
      → length w.config.diff_ids ≡ length w.results
      → Returns (λ r. Matched (length w.results) r.0 × Described r) (upload_image H b w)
  unfolding upload_image
  upload_image-Matched w e =
      Returns-bind_of _
        (add_base-Matched _ _ (with_results-Paired w e) (length-result_descs w.results))
        (λ u m. Returns-bind_of _ (upload_manifest-desc (referring b u.manifest) u.config) (λ d p.
          Returns-pure _ (
            (
              ap (map (λ l. l.digest)) (referring-layers b u.manifest) ∙ m.0,
              rw (referring-layers b u.manifest) m.1,
            ),
            (ap (λ x. x.digest) p, ap (λ x. x.size) p, refl, refl),
          )))

  -- The converted image of an image with as many layers as diff IDs has one layer for each of its
  -- layers, and in front of them, at the bottom, unless a file system is made, one that has the digest and
  -- the size of what the base layer was packed into; its diff IDs are the digests of its layers in order,
  -- and the descriptor that is returned has the digest and the size of its manifest, which names its
  -- configuration by digest and size.
  pub convert-Matched :
      (manifest : Manifest) (config : Image)
      → length config.diff_ids ≡ length manifest.layers
      → Returns
          (λ r. Matched (length manifest.layers) r.0 × Described r)
          (do
            w ← new_engine H b manifest config
            done ← convert_layers H b (length w.manifest.layers) w 0
            upload_image H b done)
  convert-Matched manifest config e =
      Returns-bind_of _ (new_engine-start H b manifest config) (λ w (m, c, l, n).
        Returns-bind_of _ (layers-Grown H b w.manifest.layers [] 0 w refl refl) (λ v g.
          let counted : length v.results ≡ length manifest.layers = g.count_same ∙ n in
          let ids : length v.config.diff_ids ≡ length v.results =
            ap (λ x. length x.diff_ids) (g.config_same ∙ c) ∙ e ∙ sym counted in
          rw⁻¹ counted (upload_image-Matched v ids)))
