-- ===== src/Store/Apply/Rollback.antt =====
-- What applyOCIV1LayerInObd (pkg/convertor/convertor.go) leaves in the snapshotter.
use accelerated_container_im.Base.{
  ℕ, zero, suc, ◌≡◌, refl, ◌⊎◌, inl, inr, String, Bool, true, false, List, ◌∷◌,
}
use accelerated_container_im.Base.Dict.{Dict}
use accelerated_container_im.Convertor.Registry.{is_already_exists}
use accelerated_container_im.Host.{Op, History, Host, sn_prepare, sn_remove, sn_commit}
use accelerated_container_im.Host.Ends.{
  Ends, Ends-pure, Ends-fail, Ends-if_of, Ends-ask, Ends-act, Ends-ignore-act, Ends-bind, Ends-try,
  EndsAt, Ends-weaken_error,
}
use accelerated_container_im.Host.Exec.{Exec, act, pure, ignore, when, ◌>>◌}
use accelerated_container_im.Host.Leaves.{Done, Failed}
use accelerated_container_im.Host.Registry.{Descriptor}
use accelerated_container_im.Host.Types.{Error, ok, err}
use accelerated_container_im.Store.{unique_part, conv_name}
use accelerated_container_im.Store.Apply.{
  prepare_unique, commit_or_keep, apply_in, with_rollback, apply_layer,
}

-- A call that does not change which snapshots there are.
abbrev pub is_plain : Op → Bool
is_plain (sn_prepare _ _ _) = false
is_plain (sn_remove _) = false
is_plain (sn_commit _ _ _) = false
is_plain _ = true

module _ (H : Host) (parent : String) (labels : Dict String) (start : History) where
  -- Since `start` every Prepare was refused.
  pub data NoneHeld : History → Type 0 where
    at_start : NoneHeld start
    plain : {h : History} (op : Op) → is_plain op ≡ true → NoneHeld h → NoneHeld (op ∷ h)
    refused :
        {h : History} (key : String) (e : Error)
        → H.names h (sn_prepare key parent labels) ≡ err e
        → NoneHeld h
        → NoneHeld (sn_prepare key parent labels ∷ h)

  -- Since `start` one Prepare succeeded, for the snapshot `key`, and this is neither removed nor committed.
  pub data Held (key : String) : History → Type 0 where
    prepared :
        {h : History} (mounts : List String)
        → H.names h (sn_prepare key parent labels) ≡ ok mounts
        → NoneHeld h
        → Held key (sn_prepare key parent labels ∷ h)
    worked : {h : History} (op : Op) → is_plain op ≡ true → Held key h → Held key (op ∷ h)

  -- The last call removes the snapshot `key`, behind calls for which `R` holds.
  abbrev pub Removed : String → (History → Type 0) → History → Type 0
  Removed key R h = (before : History) × (h ≡ sn_remove key ∷ before) × R before

  -- The commit of `key` under the name `id` found a snapshot with this name.
  abbrev pub Taken : String → String → History → Type 0
  Taken key id h =
      (e : Error) × (is_already_exists e ≡ true) × Failed H (Held key) (sn_commit id key labels) e h

  abbrev pub Applied : String → History → Type 0
  Applied id h =
      (key : String) × (Done H (Held key) (sn_commit id key labels) h
        ⊎ Removed key (Taken key id) h)

  -- Nothing was prepared, or the last call removes what was prepared.
  abbrev HeldOrFailed : String → History → Type 0
  HeldOrFailed key h =
      Held key h ⊎ ((id : String) × (e : Error) × Failed H (Held key) (sn_commit id key labels) e h)

  abbrev pub Withdrawn : Error → History → Type 0
  Withdrawn e h = NoneHeld h ⊎ ((key : String) × Removed key (HeldOrFailed key) h)

  abbrev NotPrepared : Error → History → Type 0
  NotPrepared e h = NoneHeld h

  unique_part-Ends : Ends NoneHeld (λ _. NoneHeld) NotPrepared (unique_part H)
  unfolding unique_part
  unique_part-Ends =
      Ends-bind _ (Ends-ask _ _ (λ h a r x. plain _ refl r) (λ h e r x. plain _ refl r)) (λ t.
        Ends-bind _ (Ends-ask _ _ (λ h a r x. plain _ refl r) (λ h e r x. plain _ refl r))
          (λ b. Ends-pure _ (λ h r. r)))

  prepare_unique-Ends :
      (tries : ℕ) → Ends NoneHeld (λ p. Held p.0) NotPrepared (prepare_unique H tries parent labels)
  unfolding prepare_unique
  prepare_unique-Ends zero = Ends-fail _ (λ h r. r)
  prepare_unique-Ends (suc tries) = Ends-bind _ unique_part-Ends (λ part.
      Ends-try {Q = λ mounts. Held (conv_name part)} {S = NotPrepared} _
        (Ends-ask _ _ (λ h mounts r x. prepared mounts x r) (λ h e r x. refused _ e x r))
        (λ mounts. Ends-pure _ (λ h r. r))
        (λ e.
          Ends-if_of (is_already_exists e) (λ y. prepare_unique-Ends tries)
            (λ n. Ends-fail _ (λ h r. r))))

  prepare-Withdrawn :
      (tries : ℕ) → Ends NoneHeld (λ p. Held p.0) Withdrawn (prepare_unique H tries parent labels)
  prepare-Withdrawn tries = Ends-weaken_error (λ e h r. inl r) (prepare_unique-Ends tries)

  -- What is known of the flag `rollback` behind the commit of `key` under the name `id`.
  abbrev Kept : String → String → Bool → History → Type 0
  Kept key id true h = Taken key id h
  Kept key id false h = Done H (Held key) (sn_commit id key labels) h

  commit_or_keep-Ends :
      (key id : String)
      → Ends (Held key) (Kept key id) (λ e h. HeldOrFailed key h) (commit_or_keep H id key labels)
  unfolding commit_or_keep
  commit_or_keep-Ends key id =
      Ends-try {Q = λ u. Done H (Held key) (sn_commit id key labels)}
        {S = λ e. Failed H (Held key) (sn_commit id key labels) e} _
        (Ends-act H _ (λ h r x. (h, refl, x, r)) (λ h e r x. (h, refl, x, r)))
        (λ u. Ends-pure _ (λ h d. d))
        (λ e.
          Ends-if_of (is_already_exists e) (λ y. Ends-pure _ (λ h f. (e, y, f)))
            (λ n. Ends-fail _ (λ h f. inr (id, e, f))))

  work-Ends :
      (key : String) (op : Op)
      → is_plain op ≡ true
      → Ends (Held key) (λ u. Held key) (λ e h. HeldOrFailed key h) (act H op)
  work-Ends key op p = Ends-act H op (λ h r x. worked op p r) (λ h e r x. inl (worked op p r))

  apply_in-Ends :
      (key : String) (mounts : List String) (desc : Descriptor)
      → Ends
          (Held key)
          (λ (id, rollback). Kept key id rollback)
          (λ e h. HeldOrFailed key h)
          (apply_in H key mounts desc labels)
  unfolding apply_in
  apply_in-Ends key mounts desc = Ends-bind _ (work-Ends key _ refl) (λ _.
      Ends-bind _ (work-Ends key _ refl) (λ _. Ends-bind _ (work-Ends key _ refl) (λ _.
        Ends-bind {Q = λ a. Held key} _
          (Ends-ask _ _ (λ h a r x. worked _ refl r) (λ h e r x. inl (worked _ refl r)))
          (λ digest.
            Ends-bind _ (commit_or_keep-Ends key (conv_name digest))
              (λ rollback. Ends-pure _ (λ h k. k))))))

  finish-Ends :
      (key id : String) (rollback : Bool)
      → Ends
          (Kept key id rollback)
          Applied
          Withdrawn
          (when rollback (ignore (act H (sn_remove key))) >> pure id)
  unfolding when
  finish-Ends key id true =
      Ends-bind {Q = λ u. Removed key (Taken key id)} _ (Ends-ignore-act H _ (λ h t. (h, refl, t)))
        (λ u. Ends-pure id (λ h r. (key, inr r)))
  finish-Ends key id false =
      Ends-bind {Q = λ u. Kept key id false} _ (Ends-pure tt (λ h d. d))
        (λ u. Ends-pure id (λ h d. (key, inl d)))

  with_rollback-Ends :
      (key : String) (m : Exec (String × Bool))
      → Ends (Held key) (λ (id, rollback). Kept key id rollback) (λ e h. HeldOrFailed key h) m
      → Ends (Held key) Applied Withdrawn (with_rollback H key m)
  unfolding with_rollback
  with_rollback-Ends key m k =
      Ends-try m k (λ (id, rollback). finish-Ends key id rollback)
        (λ e.
          Ends-bind {Q = λ u. Removed key (HeldOrFailed key)} _
            (Ends-ignore-act H _ (λ h t. (h, refl, t))) (λ u. Ends-fail e (λ h r. inr (key, r))))

  apply_layer-Ends :
      (tries : ℕ) (desc : Descriptor)
      → Ends NoneHeld Applied Withdrawn (apply_layer H tries parent desc labels)
  unfolding apply_layer
  apply_layer-Ends tries desc =
      Ends-bind {Q = λ u. NoneHeld} _
        (Ends-act H _ (λ h r x. plain _ refl r) (λ h e r x. inl (plain _ refl r)))
        (λ u.
          Ends-bind _ (prepare-Withdrawn tries)
            (λ (key, mounts). with_rollback-Ends key _ (apply_in-Ends key mounts desc)))

module _ (H : Host) where
  -- applyOCIV1LayerInObd, whatever the host answers: if it returns an ID, it prepared exactly one
  -- snapshot, and its last call committed this under the ID, or removed it behind a commit that found the
  -- ID taken; if it fails, it prepared none, or its last call removes the one that it prepared.
  pub apply_layer-Applied :
      (tries : ℕ) (parent : String) (desc : Descriptor) (labels : Dict String) (start : History)
      → EndsAt
          (Applied H parent labels start)
          (Withdrawn H parent labels start)
          (apply_layer H tries parent desc labels start).0
          (apply_layer H tries parent desc labels start).1
  apply_layer-Applied tries parent desc labels start =
      (apply_layer-Ends H parent labels start tries desc).at start at_start
