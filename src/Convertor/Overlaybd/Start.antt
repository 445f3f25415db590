-- ===== src/Convertor/Overlaybd/Start.antt =====
-- What NewOverlayBDBuilderEngine (overlaybd_builder.go) starts from.
use accelerated_container_im.Base.{
  ℕ, zero, suc, ◌<◌, String, ◌≡◌, refl, ap, ◌∙◌, some, List, [], ◌∷◌, ◌++◌, arith, if◌then◌else◌,
}
use mathlib.Core.List.{append_assoc}
use accelerated_container_im.Base.Lists.{length, get_elem?, take}
use accelerated_container_im.Convertor.Engine.{Base}
use accelerated_container_im.Convertor.Overlaybd.{LayerResult}
use accelerated_container_im.Convertor.Overlaybd.Finish.{
  base_layer, start_result, chain_results, new_engine,
}
use accelerated_container_im.Host.{Host}
use accelerated_container_im.Host.Registry.{Descriptor, Manifest, Image}
use accelerated_container_im.Host.Returns.{Returns, Returns-bind_of, Returns-pure, Returns-fail}
use accelerated_container_im.Host.Types.{no_lower}

module _ (H : Host) (b : Base) where
  -- Each result has the chain ID of the diff IDs up to its own; there is one for each layer.
  abbrev pub Chained : List String → List String → List Descriptor → List LayerResult → Type 0
  Chained chain ids layers rs =
      (length rs ≡ length layers)
      × ((i : ℕ)
          → i < length layers
          → get_elem? rs i ≡ some (start_result (H.chain_id (chain ++ take (suc i) ids))))

  chain-Chained :
      (chain : List String) (d : String) (ids : List String) (l : Descriptor) (ls : List Descriptor)
      (rs : List LayerResult)
      → Chained (chain ++ (d ∷ [])) ids ls rs
      → Chained chain (d ∷ ids) (l ∷ ls) (start_result (H.chain_id (chain ++ (d ∷ []))) ∷ rs)
  chain-Chained chain d ids l ls rs (n, k) = (omega (arith, n), at)
    where
      at :
          (i : ℕ)
          → i < length (l ∷ ls)
          → get_elem? (start_result (H.chain_id (chain ++ (d ∷ []))) ∷ rs) i
            ≡ some (start_result (H.chain_id (chain ++ take (suc i) (d ∷ ids))))
      at zero p = refl
      at (suc i) p =
          k i (omega (arith, p))
          ∙ ap (λ x. some (start_result (H.chain_id x)))
              (append_assoc chain (d ∷ []) (take (suc i) ids))

  chain_results-Chained :
      (chain : List String) (layers : List Descriptor) (ids : List String)
      → Returns (Chained chain ids layers) (chain_results H b chain layers ids)
  unfolding chain_results
  chain_results-Chained chain [] ids = Returns-pure _ (refl, λ i p. absurd (omega (arith, p)))
  chain_results-Chained chain (l ∷ ls) [] = Returns-fail _
  chain_results-Chained chain (l ∷ ls) (d ∷ ids) =
      Returns-bind_of _ (chain_results-Chained (chain ++ (d ∷ [])) ls ids)
        (λ rs c. Returns-pure _ (chain-Chained chain d ids l ls rs c))

  -- The engine starts with one result for each layer, in the order of the layers, whose chain ID is the
  -- chain ID of the diff IDs up to this layer's.
  pub new_engine-Chained :
      (manifest : Manifest) (config : Image)
      → Returns
          (λ w. Chained [] config.diff_ids manifest.layers w.results)
          (new_engine H b manifest config)
  unfolding new_engine
  new_engine-Chained manifest config =
      Returns-bind_of _ (chain_results-Chained [] manifest.layers config.diff_ids)
        (λ rs c. Returns-pure _ c)

  pub new_engine-start :
      (manifest : Manifest) (config : Image)
      → Returns
          (λ w.
            (w.manifest ≡ manifest)
            × (w.config ≡ config)
            × (w.overlaybd_config.lowers
                ≡ (if b.mkfs then [] else record no_lower { file = base_layer } ∷ []))
            × (length w.results ≡ length manifest.layers))
          (new_engine H b manifest config)
  unfolding new_engine
  new_engine-start manifest config =
      Returns-bind_of _ (chain_results-Chained [] manifest.layers config.diff_ids)
        (λ rs (n, c). Returns-pure _ (refl, refl, refl, n))
