-- ===== src/Convertor/Overlaybd/Reuse.antt =====
-- When a layer counts as converted already (overlaybd_builder.go), and what a download of a layer has
-- checked (builder_utils.go).
use accelerated_container_im.Base.{
  ℕ, String, ◌≡◌, refl, ◌⊎◌, inl, inr, ◌==◌, string_eq, Bool, true, not, Option, none, some, List,
  [], ◌∷◌,
}
use accelerated_container_im.Base.Lists.{get_elem?}
use accelerated_container_im.Convertor.Engine.{Base}
use accelerated_container_im.Convertor.Overlaybd.{Work, LayerResult, result_of}
use accelerated_container_im.Convertor.Overlaybd.Dedup.{
  layer_in_repo, layer_elsewhere, check_for_converted_layer, entry_layer, mounted_from,
  is_not_found, first_of,
}
use accelerated_container_im.Convertor.Registry.{download_layer, is_already_exists}
use accelerated_container_im.Host.{History, Host, fetch, push, verified, create_layer_entry}
use accelerated_container_im.Host.Exec.{on_option}
use accelerated_container_im.Host.Registry.{Descriptor, LayerEntry}
use accelerated_container_im.Host.Leaves.{
  Leaves, Anywhere, Done, Failed, Tried, Leaves-pure, Leaves-fail, Leaves-if_of, Leaves-forget,
  Leaves-ask, Leaves-try, Leaves-bind, Leaves-then, Leaves-known, Leaves-on_option,
  Leaves-on_result,
}
use accelerated_container_im.Host.Types.{Error, ok}

module _ (H : Host) where
  -- downloadLayer succeeds only if its last call is the check of the digest, and the digest was right.
  pub download_layer-Checked :
      (ref target : String) (desc : Descriptor) (decompressed : Bool)
      → Leaves Anywhere
          (λ _ h.
            (before : History) × (h ≡ verified desc ∷ before)
            × (H.holds before (verified desc) ≡ ok true))
          (download_layer H ref target desc decompressed)
  unfolding download_layer
  download_layer-Checked ref target desc decompressed = Leaves-then _ (λ _. Leaves-then _ (λ _.
      Leaves-then _ (λ _. Leaves-then _ (λ _. Leaves-then _ (λ _.
        Leaves-bind
          {Q = λ good h.
            (before : History) × (h ≡ verified desc ∷ before)
            × (H.holds before (verified desc) ≡ ok good)}
          _ (Leaves-ask _ _ (λ h a r e. (h, refl, e)))
          (λ good.
            Leaves-if_of good (λ e. Leaves-pure tt (λ h (b, p, q). (b, p, rw⁻¹ e q)))
              (λ e. Leaves-fail _)))))))

module _ (H : Host) (b : Base) where
  -- The last call fetched `d` from the source, or entered `d` in the database behind a push that found
  -- it in place in the target repository.
  abbrev pub Reusable : String → Descriptor → History → Type 0
  Reusable chain_id d h =
      Done H Anywhere (fetch b.source_ref d) h
      ⊎ ((repository : String) × (e : Error) × (is_already_exists e ≡ true)
          × Done H (Failed H Anywhere (push b.target_ref (mounted_from b repository d)) e)
              (create_layer_entry b.host b.repository d.digest chain_id d.size) h)

  abbrev Found : String → Option Descriptor → History → Type 0
  Found chain_id (some d) h = Reusable chain_id d h
  Found chain_id none h = Unit

  layer_in_repo-Found :
      (chain_id : String) → Leaves Anywhere (Found chain_id) (layer_in_repo H b chain_id)
  unfolding layer_in_repo string_eq
  layer_in_repo-Found chain_id = Leaves-then _ (λ rows.
      Leaves-on_option (λ _. Anywhere) (first_of rows)
        (λ entry.
          Leaves-if_of (entry.chain_id == "") (λ e. Leaves-pure none (λ h r. tt))
            (λ e.
              Leaves-bind _ (Leaves-try H (fetch b.source_ref (entry_layer H b entry))) (λ fetched.
                Leaves-on_result (Tried H Anywhere (fetch b.source_ref (entry_layer H b entry)))
                  fetched (λ a. Leaves-pure _ (λ h d. inl d))
                  (λ x.
                    Leaves-if_of (is_not_found x)
                      (λ y. Leaves-then _ (λ _. Leaves-pure none (λ h r. tt)))
                      (λ y. Leaves-pure none (λ h r. tt))))))
        (Leaves-pure none (λ h r. tt)))

  layer_elsewhere-Reusable :
      (chain_id : String) (entries : List LayerEntry)
      → Leaves Anywhere (Reusable chain_id) (layer_elsewhere H b chain_id entries)
  unfolding layer_elsewhere
  layer_elsewhere-Reusable chain_id [] = Leaves-fail _
  layer_elsewhere-Reusable chain_id (entry ∷ entries) =
      let rest = layer_elsewhere-Reusable chain_id entries in
      let pushing = push b.target_ref (mounted_from b entry.repository (entry_layer H b entry)) in
      let creating =
        create_layer_entry b.host b.repository entry.converted_digest chain_id entry.data_size in
      Leaves-bind _ (Leaves-try H pushing) (λ pushed.
        Leaves-on_result (Tried H Anywhere pushing) pushed (λ a. Leaves-forget rest)
          (λ e.
            Leaves-if_of (is_already_exists e)
              (λ yes. Leaves-bind _ (Leaves-try H creating) (λ created.
                Leaves-on_result (Tried H (Failed H Anywhere pushing e) creating) created
                  (λ a. Leaves-pure _ (λ h d. inr (entry.repository, e, yes, d)))
                  (λ x. Leaves-forget rest)))
              (λ no. Leaves-forget rest)))

  result_of-At :
      (w : Work) (idx : ℕ) (r : LayerResult)
      → get_elem? w.results idx ≡ some r
      → Leaves Anywhere (λ x h. x ≡ r) (result_of H b w idx)
  unfolding result_of on_option
  result_of-At w idx r e = rw e (Leaves-pure r (λ h _. refl))

  -- CheckForConvertedLayer finds a layer only if the registry has it: its last call fetched the layer
  -- that it returns, or entered it in the database, for the chain ID asked for, right behind a push that
  -- mounts it from another repository and found it in place.
  pub check_for_converted_layer-Reusable :
      (w : Work) (idx : ℕ) (r : LayerResult)
      → get_elem? w.results idx ≡ some r
      → Leaves Anywhere (Reusable r.chain_id) (check_for_converted_layer H b w idx)
  unfolding check_for_converted_layer
  check_for_converted_layer-Reusable w idx r at =
      Leaves-if_of (not b.has_db) (λ e. Leaves-fail _)
        (λ e. Leaves-known _ _ r (result_of-At w idx r at) (
          Leaves-bind _ (layer_in_repo-Found r.chain_id) (λ found.
            Leaves-on_option (Found r.chain_id) found (λ d. Leaves-pure d (λ h x. x))
              (Leaves-then _ (λ entries. layer_elsewhere-Reusable r.chain_id entries)))))
