-- ===== src/Snapshot/Device/Undone.antt =====
-- The clean-up of AttachDevice (storage.go).
use accelerated_container_im.Base.{
  ◌≡◌, ◌≢◌, refl, ◌⊎◌, inl, inr, String, Bool, true, false, Option, none, some, List, [], ◌∷◌, ℕ,
  zero, suc,
}
use accelerated_container_im.Host.{Op, History, Host, mkdir_all, remove_all}
use accelerated_container_im.Host.Exec.{
  Exec, act, on_error, ignore, ◌>>=◌, ◌>>◌, after_error, continue, returned,
}
use accelerated_container_im.Host.Success.{
  Succeeds, Succeeds-Emits, Succeeds-on_error, Succeeds-bind,
}
use accelerated_container_im.Host.Trace.{Extends, same, more, Extends-trans, Emits, emits_rules}
use accelerated_container_im.Host.Types.{
  Error, again, forbidden, not_exist, already_exists, not_found, failed, panicked, Result, ok, err,
}
use accelerated_container_im.Snapshot.Device.Attach.{
  AttachParams, target_of, attach_device, loopback_device, link_device, await_device,
  configure_target, report_not_enabled, enable_target, on_enable_error, first_entry,
  find_ready_block_device, wait_for_block_device,
}

abbrev pub keeps : Op → Bool
keeps (remove_all _) = false
keeps _ = true

module _ (H : Host) where
  enable_error-Emits :
      (e : Error) {m : Exec Bool} → Emits keeps m → Emits keeps (on_enable_error H e m)
  unfolding on_enable_error
  enable_error-Emits again k = let k' = λ (u : Unit {0}). k in search (emits_rules, k') depth 12
  enable_error-Emits not_exist k = search emits_rules
  enable_error-Emits already_exists k = search emits_rules
  enable_error-Emits not_found k = search emits_rules
  enable_error-Emits forbidden k = search emits_rules
  enable_error-Emits failed k = search emits_rules
  enable_error-Emits panicked k = search emits_rules

  enable-Emits : (n : ℕ) (p : String) → Emits keeps (enable_target H n p)
  unfolding enable_target
  enable-Emits zero p = search emits_rules
  enable-Emits (suc n) p =
      let ih = λ (u : Unit {0}). enable-Emits n p in
      search (emits_rules, enable_error-Emits, ih) depth 12

  report-Emits : (p : AttachParams) (b : Bool) → Emits keeps (report_not_enabled H p b)
  unfolding report_not_enabled
  report-Emits p true = search emits_rules
  report-Emits p false = search emits_rules depth 12

  configure-Emits : (p : AttachParams) (t : String) → Emits keeps (configure_target H p t)
  unfolding configure_target
  configure-Emits p t = search (emits_rules, enable-Emits, report-Emits) depth 20

  first-Emits : (ns : List String) → Emits keeps (first_entry H ns)
  unfolding first_entry
  first-Emits [] = search emits_rules
  first-Emits (n ∷ ns) = search emits_rules depth 12

  find-Emits : (n : String) → Emits keeps (find_ready_block_device H n)
  unfolding find_ready_block_device
  find-Emits n = search (emits_rules, first-Emits) depth 12

  wait-Emits :
      (n : ℕ) (e : Error) (d : String)
      → Emits keeps (wait_for_block_device H (find_ready_block_device H) n e d)
  unfolding wait_for_block_device
  wait-Emits zero e d = search emits_rules
  wait-Emits (suc n) e d = let ih = wait-Emits n in search (emits_rules, find-Emits, ih) depth 12

  await-Emits : (t : String) → Emits keeps (await_device H t)
  unfolding await_device
  await-Emits t = search (emits_rules, wait-Emits) depth 12

  link-Succeeds : (d t l k g : String) → Succeeds keeps (link_device H d t l k g)
  unfolding link_device
  link-Succeeds d t l k g =
      search (emits_rules, await-Emits, Succeeds-bind, Succeeds-on_error, Succeeds-Emits) depth 20

  loopback-Succeeds : (p : AttachParams) (t : String) → Succeeds keeps (loopback_device H p t)
  unfolding loopback_device
  loopback-Succeeds p t =
      search (emits_rules, link-Succeeds, Succeeds-bind, Succeeds-on_error, Succeeds-Emits) depth 20

  body-Succeeds :
      (p : AttachParams) (t : String)
      → Succeeds keeps (configure_target H p t >> loopback_device H p t)
  body-Succeeds p t =
      search (emits_rules, configure-Emits, loopback-Succeeds, Succeeds-bind, Succeeds-Emits) depth
        20

-- What an attachment to `target` came to: every file that it made is kept, or the target is removed
-- by its last call, or the first call of all failed and nothing was made.
abbrev pub Undone {ℓ} : {A : Type ℓ} → Host → String → History → Result A → History → Type 0
Undone H target h (ok a) h' = Extends keeps h h'
Undone H target h (err e) h' =
    ((H.acts h (mkdir_all target) ≢ none) × (h' ≡ mkdir_all target ∷ h))
    ⊎ ((before : History) × (h' ≡ remove_all target ∷ before))

module _ (H : Host) (target : String) where
  guarded-Undone :
      (h h' : History) (r : Result {0} String)
      → ((a : String) → r ≡ ok a → Extends keeps h h')
      → Undone H target h
          (after_error r (ignore (act H (remove_all target))) h').0
          (after_error r (ignore (act H (remove_all target))) h').1
  unfolding ◌>>=◌
  guarded-Undone h h' (ok a) x = x a refl
  guarded-Undone h h' (err e) x = inr (h', refl)

module _ (H : Host) (p : AttachParams) where
  attach_body-Undone :
      (h : History) (o : Option Error)
      → H.acts h (mkdir_all (target_of H p)) ≡ o
      → let m = λ (_ : Unit {0}).
        on_error
          (ignore (act H (remove_all (target_of H p))))
          (configure_target H p (target_of H p) >> loopback_device H p (target_of H p)) in
        Undone H
          (target_of H p)
          h
          (continue (returned o) m (mkdir_all (target_of H p) ∷ h)).0
          (continue (returned o) m (mkdir_all (target_of H p) ∷ h)).1
  unfolding ◌>>=◌
  attach_body-Undone h none e =
      let g = mkdir_all (target_of H p) ∷ h in
      let (r, h') =
        (configure_target H p (target_of H p) >> loopback_device H p (target_of H p)) g in
      guarded-Undone H (target_of H p) h h' r (λ a q.
        Extends-trans (more (mkdir_all (target_of H p)) refl same)
          ((body-Succeeds H p (target_of H p)).at g a q))
  attach_body-Undone h (some x) e = inl (λ n. cc (e, n), refl)

  -- AttachDevice undoes its work on failure: if it returns a device it removed nothing; if it returns
  -- an error, its last call removes the target directory, unless the very first call, which makes that
  -- directory, failed and nothing else was called.
  pub attach_device-Undone :
      (h : History) → Undone H (target_of H p) h (attach_device H p h).0 (attach_device H p h).1
  unfolding attach_device ◌>>=◌
  attach_device-Undone h = attach_body-Undone h (H.acts h (mkdir_all (target_of H p))) refl
