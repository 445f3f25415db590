-- ===== src/Convertor/Graph/Layers.antt =====
-- The lower layers that a conversion collects (builder.go and overlaybd_builder.go).
use accelerated_container_im.Base.{
  ℕ, zero, suc, String, ◌<>◌, ◌≡◌, refl, sym, ap, ◌∙◌, Bool, some, List, [], ◌∷◌, ◌++◌, arith,
  if◌then◌else◌,
}
use mathlib.Core.List.{append-nil, append_assoc}
use accelerated_container_im.Base.Lists.{length, get_elem?, set, length-append, get_elem?-append}
use accelerated_container_im.Convertor.Engine.{Base}
use accelerated_container_im.Convertor.Graph.{obtain_layer, convert_one_layer, convert_layers}
use accelerated_container_im.Convertor.Overlaybd.{
  Work, LayerResult, four_digits, layer_dir, download_source_layer, build_layer, build_dir,
  convert_layer_dir, upload_layer,
}
use accelerated_container_im.Convertor.Overlaybd.Dedup.{download_converted_layer}
use accelerated_container_im.Convertor.Overlaybd.Finish.{base_layer, new_engine}
use accelerated_container_im.Convertor.Overlaybd.Start.{new_engine-start}
use accelerated_container_im.Host.{Host}
use accelerated_container_im.Host.Exec.{◌>>=◌, ◌>>◌, pure, on_option}
use accelerated_container_im.Host.Registry.{Descriptor, Manifest, Image}
use accelerated_container_im.Host.Returns.{
  Returns, Returns-bind, Returns-bind_of, Returns-attempt, Returns-on_result, Returns-on_result_of,
  Returns-weaken, Returns-pure, returns_rules,
}
use accelerated_container_im.Host.Types.{Lower, no_lower}

-- What the other steps of a layer leave as it was.
record Kept (v w : Work) : Type 0 where
  manifest_kept : w.manifest ≡ v.manifest
  config_kept : w.config ≡ v.config
  lowers_kept : w.overlaybd_config.lowers ≡ v.overlaybd_config.lowers
  count_kept : length w.results ≡ length v.results

length-set {ℓ} : {A : Type ℓ} (xs : List A) (i : ℕ) (a : A) → length (set xs i a) ≡ length xs
length-set [] i a = refl
length-set (x ∷ xs) zero a = refl
length-set (x ∷ xs) (suc i) a = omega (arith, length-set xs i a)

refl-Kept : (w : Work) → Kept w w
refl-Kept w = record {
  manifest_kept = refl;
  config_kept = refl;
  lowers_kept = refl;
  count_kept = refl;
}

set-Kept : (w : Work) (i : ℕ) (r : LayerResult) → Kept w (record w { results = set w.results i r })
set-Kept w i r = record {
  manifest_kept = refl;
  config_kept = refl;
  lowers_kept = refl;
  count_kept = length-set w.results i r;
}

trans-Kept : {u v w : Work} → Kept u v → Kept v w → Kept u w
trans-Kept p q = record {
  manifest_kept = q.manifest_kept ∙ p.manifest_kept;
  config_kept = q.config_kept ∙ p.config_kept;
  lowers_kept = q.lowers_kept ∙ p.lowers_kept;
  count_kept = q.count_kept ∙ p.count_kept;
}

-- The directory of a layer.
abbrev pub layer_path : Base → ℕ → Descriptor → String
layer_path b i l = b.work_dir <> "/" <> four_digits i <> "_" <> l.digest

-- The commit files of layers in their directories, the first of which has the index `i`.
abbrev pub commit_files : Base → ℕ → List Descriptor → List Lower
commit_files b i [] = []
commit_files b i (l ∷ ls) =
    record no_lower { file = layer_path b i l <> "/overlaybd.commit" } ∷ commit_files b (suc i) ls

-- `w` is `v` with lower layers added.
pub record Grown (v w : Work) (files : List Lower) : Type 0 where
  pub manifest_same : w.manifest ≡ v.manifest
  pub config_same : w.config ≡ v.config
  pub count_same : length w.results ≡ length v.results
  lowers_grown : w.overlaybd_config.lowers ≡ v.overlaybd_config.lowers ++ files

framed-Grown :
    {u v w x : Work} {fs : List Lower} → Kept u v → Grown v w fs → Kept w x → Grown u x fs
framed-Grown {fs = fs} k g k' = record {
  manifest_same = k'.manifest_kept ∙ g.manifest_same ∙ k.manifest_kept;
  config_same = k'.config_kept ∙ g.config_same ∙ k.config_kept;
  count_same = k'.count_kept ∙ g.count_same ∙ k.count_kept;
  lowers_grown = k'.lowers_kept ∙ g.lowers_grown ∙ ap (λ x. x ++ fs) k.lowers_kept;
}

none-Grown : (w : Work) → Grown w w []
none-Grown w = record {
  manifest_same = refl;
  config_same = refl;
  count_same = refl;
  lowers_grown = sym (append-nil _);
}

trans-Grown :
    {u v w : Work} {fs gs : List Lower} → Grown u v fs → Grown v w gs → Grown u w (fs ++ gs)
trans-Grown {u} {fs = fs} {gs = gs} g k = record {
  manifest_same = k.manifest_same ∙ g.manifest_same;
  config_same = k.config_same ∙ g.config_same;
  count_same = k.count_same ∙ g.count_same;
  lowers_grown =
      k.lowers_grown
      ∙ ap (λ x. x ++ gs) g.lowers_grown
      ∙ append_assoc u.overlaybd_config.lowers fs gs;
}

module _ (H : Host) (b : Base) where
  download_converted-Kept :
      (w : Work) (idx : ℕ) (d : Descriptor)
      → Returns (Kept w) (download_converted_layer H b w idx d)
  unfolding download_converted_layer
  download_converted-Kept w idx d = search (returns_rules, set-Kept) depth 12

  obtain-Kept : (w : Work) (idx : ℕ) → Returns (Kept w) (obtain_layer H b w idx)
  unfolding obtain_layer
  obtain-Kept w idx =
      let fresh : Returns (Kept w) (do download_source_layer H b w idx; pure w) =
        search (returns_rules, refl-Kept) depth 6 in
      Returns-bind _ (λ checked.
        Returns-on_result checked
          (λ d.
            Returns-bind_of _ (Returns-attempt _ (download_converted-Kept w idx d))
              (λ reused q. Returns-on_result_of reused q (λ v k. Returns-pure v k) (λ e. fresh)))
          (λ e. fresh))

  upload-Kept : (w : Work) (idx : ℕ) → Returns (Kept w) (upload_layer H b w idx)
  unfolding upload_layer
  upload-Kept w idx = search (returns_rules, set-Kept) depth 12

  build_dir-lowers :
      (w : Work) (dir : String) (idx : ℕ) (r : LayerResult) (present : Bool)
      → Returns (λ c. c.lowers ≡ w.overlaybd_config.lowers) (build_dir H b w dir idx r present)
  unfolding build_dir convert_layer_dir
  build_dir-lowers w dir idx r present = search returns_rules depth 20

  layer_dir-path :
      (layers : List Descriptor) (i : ℕ) (l : Descriptor)
      → get_elem? layers i ≡ some l
      → Returns (λ dir. dir ≡ layer_path b i l) (layer_dir H b layers i)
  unfolding layer_dir on_option
  layer_dir-path layers i l e = rw e (Returns-pure _ refl)

  build-Grown :
      (w : Work) (i : ℕ) (l : Descriptor)
      → get_elem? w.manifest.layers i ≡ some l
      → Returns (λ v. Grown w v (commit_files b i (l ∷ []))) (build_layer H b w i)
  unfolding build_layer
  build-Grown w i l e = Returns-bind_of _ (layer_dir-path w.manifest.layers i l e) (λ dir p.
      Returns-bind _ (λ present. Returns-bind _ (λ result.
        Returns-bind_of _ (build_dir-lowers w dir i result present) (λ c q. Returns-pure _ (record {
          manifest_same = refl;
          config_same = refl;
          count_same = refl;
          lowers_grown = rw (q, p) refl;
        })))))

  one-Grown :
      (w : Work) (i : ℕ) (l : Descriptor)
      → get_elem? w.manifest.layers i ≡ some l
      → Returns (λ v. Grown w v (commit_files b i (l ∷ []))) (convert_one_layer H b w i)
  unfolding convert_one_layer
  one-Grown w i l e = Returns-bind_of _ (obtain-Kept w i) (λ u k.
      Returns-bind_of _ (build-Grown u i l (ap (λ m. get_elem? m.layers i) k.manifest_kept ∙ e))
        (λ v g.
          Returns-bind_of _ (upload-Kept v i)
            (λ x k'. Returns-bind _ (λ _. Returns-pure x (framed-Grown k g k')))))

  -- The layers `ls` from the index `i` on are those of the manifest behind `pre`.
  pub layers-Grown :
      (ls pre : List Descriptor) (i : ℕ) (w : Work)
      → i ≡ length pre
      → w.manifest.layers ≡ pre ++ ls
      → Returns (λ v. Grown w v (commit_files b i ls)) (convert_layers H b (length ls) w i)
  unfolding convert_layers
  layers-Grown [] pre i w c e = Returns-pure w (none-Grown w)
  layers-Grown (l ∷ ls) pre i w c e =
      let here : get_elem? w.manifest.layers i ≡ some l = rw (e, c) (get_elem?-append pre l ls) in
      Returns-bind_of _ (one-Grown w i l here) (λ v g.
        let rest =
          layers-Grown ls (pre ++ (l ∷ [])) (suc i) v (omega (arith, c, length-append pre (l ∷ [])))
            (ap (λ m. m.layers) g.manifest_same ∙ e ∙ sym (append_assoc pre (l ∷ []) ls)) in
        Returns-weaken (λ x g'. trans-Grown g g') rest)

  -- An image's conversion collects as its lower layers the default base layer, unless a file system is
  -- made, and then the commit file of each layer of the image in its own directory, in order.
  pub convert_layers-lowers :
      (manifest : Manifest) (config : Image)
      → Returns
          (λ w.
            w.overlaybd_config.lowers
            ≡ (if b.mkfs then [] else record no_lower { file = base_layer } ∷ [])
              ++ commit_files b 0 manifest.layers)
          (do w ← new_engine H b manifest config; convert_layers H b (length w.manifest.layers) w 0)
  convert_layers-lowers manifest config =
      Returns-bind_of _ (new_engine-start H b manifest config) (λ w (m, c, l, n).
        rw (ap (λ x. length x.layers) m) (
          Returns-weaken (λ v g. g.lowers_grown ∙ ap (λ x. x ++ commit_files b 0 manifest.layers) l)
            (layers-Grown manifest.layers [] 0 w refl (ap (λ x. x.layers) m))))
