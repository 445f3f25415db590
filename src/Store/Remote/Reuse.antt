-- ===== src/Store/Remote/Reuse.antt =====
-- When findRemote (pkg/convertor/convertor.go) finds a layer.
use accelerated_container_im.Base.{
  String, ◌≡◌, ◌⊎◌, inl, inr, true, Option, none, some, List, [], ◌∷◌,
}
use accelerated_container_im.Convertor.Overlaybd.Dedup.{is_not_found, first_of}
use accelerated_container_im.Convertor.Registry.{is_already_exists}
use accelerated_container_im.Host.{History, Host, fetch, push, create_layer_entry}
use accelerated_container_im.Host.Leaves.{
  Leaves, Anywhere, Done, Failed, Tried, Leaves-pure, Leaves-fail, Leaves-if_of, Leaves-forget,
  Leaves-try, Leaves-bind, Leaves-then, Leaves-on_option, Leaves-on_result,
}
use accelerated_container_im.Host.Registry.{Descriptor, LayerEntry}
use accelerated_container_im.Host.Types.{Error}
use accelerated_container_im.Store.{StoreConvertor}
use accelerated_container_im.Store.Remote.{
  row_layer, from_repo, find_in_repo, find_elsewhere, find_remote,
}

module _ (H : Host) (c : StoreConvertor) where
  -- The last call fetched `d`, or entered `d` in the database behind a push that found it in place.
  abbrev pub InRegistry : String → Descriptor → History → Type 0
  InRegistry chain_id d h =
      Done H Anywhere (fetch c.ref d) h
      ⊎ ((repository : String) × (e : Error) × (is_already_exists e ≡ true)
          × Done H (Failed H Anywhere (push c.ref (from_repo c repository d)) e)
              (create_layer_entry c.host c.repo d.digest chain_id d.size) h)

  abbrev FoundIn : String → Option Descriptor → History → Type 0
  FoundIn chain_id (some d) h = InRegistry chain_id d h
  FoundIn chain_id none h = Unit

  find_in_repo-FoundIn :
      (chain_id : String) → Leaves Anywhere (FoundIn chain_id) (find_in_repo H c chain_id)
  unfolding find_in_repo
  find_in_repo-FoundIn chain_id = Leaves-then _ (λ rows.
      Leaves-on_option (λ _. Anywhere) (first_of rows)
        (λ entry. Leaves-bind _ (Leaves-try H (fetch c.ref (row_layer entry))) (λ fetched.
          Leaves-on_result (Tried H Anywhere (fetch c.ref (row_layer entry))) fetched
            (λ a. Leaves-pure _ (λ h d. inl d))
            (λ x.
              Leaves-if_of (is_not_found x) (λ y. Leaves-then _ (λ _. Leaves-pure none (λ h r. tt)))
                (λ y. Leaves-pure none (λ h r. tt)))))
        (Leaves-pure none (λ h r. tt)))

  find_elsewhere-InRegistry :
      (chain_id : String) (rows : List (Option LayerEntry))
      → Leaves Anywhere (InRegistry chain_id) (find_elsewhere H c chain_id rows)
  unfolding find_elsewhere row_layer
  find_elsewhere-InRegistry chain_id [] = Leaves-fail _
  find_elsewhere-InRegistry chain_id (none ∷ rows) = find_elsewhere-InRegistry chain_id rows
  find_elsewhere-InRegistry chain_id (some entry ∷ rows) =
      let rest = find_elsewhere-InRegistry chain_id rows in
      let pushing = push c.ref (from_repo c entry.repository (row_layer entry)) in
      let creating =
        create_layer_entry c.host c.repo entry.converted_digest chain_id entry.data_size in
      Leaves-bind _ (Leaves-try H pushing) (λ pushed.
        Leaves-on_result (Tried H Anywhere pushing) pushed (λ a. Leaves-forget rest)
          (λ e.
            Leaves-if_of (is_already_exists e)
              (λ yes. Leaves-bind _ (Leaves-try H creating) (λ created.
                Leaves-on_result (Tried H (Failed H Anywhere pushing e) creating) created
                  (λ a. Leaves-pure _ (λ h d. inr (entry.repository, e, yes, d)))
                  (λ x. Leaves-forget rest)))
              (λ no. Leaves-forget rest)))

  -- findRemote finds a layer only if the registry has it: its last call fetched the layer that it
  -- returns, or entered it in the database, for the chain ID asked for, right behind a push that mounts
  -- it from another repository and found it in place.
  pub find_remote-InRegistry :
      (chain_id : String) → Leaves Anywhere (InRegistry chain_id) (find_remote H c chain_id)
  unfolding find_remote
  find_remote-InRegistry chain_id = Leaves-bind _ (find_in_repo-FoundIn chain_id) (λ found.
      Leaves-on_option (FoundIn chain_id) found (λ d. Leaves-pure d (λ h r. r))
        (Leaves-then _ (λ rows. find_elsewhere-InRegistry chain_id rows)))
