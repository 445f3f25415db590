-- ===== src/Snapshot/Quiet/Device.antt =====
-- The transaction calls of the operations on block devices (storage.go).
use accelerated_container_im.Base.{
  ℕ, zero, suc, String, ◌≡◌, Bool, true, false, List, [], ◌∷◌, arith,
}
use accelerated_container_im.Base.Int.{ℤ}
use accelerated_container_im.Host.{Op, Host}
use accelerated_container_im.Host.Types.{Error, again}
use accelerated_container_im.Host.Exec.{Exec}
use accelerated_container_im.Host.Trace.{Emits, Emits-bind, emits_rules}
use accelerated_container_im.Host.Transactions.{no_tx}
use accelerated_container_im.Snapshot.{Snapshotter}
use accelerated_container_im.Snapshot.Device.Attach.{
  AttachParams, on_enable_error, enable_target, report_not_enabled, first_entry,
  find_ready_block_device, wait_for_block_device, configure_target, await_device, link_device,
  loopback_device, attach_device,
}
use accelerated_container_im.Snapshot.Device.Detach.{
  check_is_parent, detach_device, parent_in_use, unmount_and_detach_block_device,
}
use accelerated_container_im.Snapshot.Device.Mount.{
  retry_mount, mount_call, mount_device, attach_and_mount_block_device,
}

module _ (H : Host) where
  on_enable_error-Emits :
      (e : Error) {m : Exec Bool} → Emits no_tx m → Emits no_tx (on_enable_error H e m)
  unfolding on_enable_error
  on_enable_error-Emits again k = Emits-bind (search emits_rules) (λ _. k)
  on_enable_error-Emits _ k = search emits_rules

  enable_target-Emits : (n : ℕ) (path : String) → Emits no_tx (enable_target H n path)
  unfolding enable_target
  enable_target-Emits zero path = search emits_rules
  enable_target-Emits (suc n) path =
      let retry = λ (e : Error). on_enable_error-Emits e (enable_target-Emits n path) in
      search (emits_rules, retry) depth 12

  report-Emits : (p : AttachParams) (b : Bool) → Emits no_tx (report_not_enabled H p b)
  unfolding report_not_enabled
  report-Emits p true = search emits_rules
  report-Emits p false = search emits_rules depth 12

  first_entry-Emits : (names : List String) → Emits no_tx (first_entry H names)
  unfolding first_entry
  first_entry-Emits [] = search emits_rules
  first_entry-Emits (n ∷ _) = search emits_rules depth 12

  find_ready-Emits : (number : String) → Emits no_tx (find_ready_block_device H number)
  unfolding find_ready_block_device
  find_ready-Emits number = search (emits_rules, first_entry-Emits) depth 12

  wait-Emits :
      (n : ℕ) (e : Error) (number : String)
      → Emits no_tx (wait_for_block_device H (find_ready_block_device H) n e number)
  unfolding wait_for_block_device
  wait-Emits zero e number = search emits_rules
  wait-Emits (suc n) e number =
      let ih = λ (e' : Error). wait-Emits n e' number in
      search (emits_rules, find_ready-Emits, ih) depth 12

  configure-Emits : (p : AttachParams) (t : String) → Emits no_tx (configure_target H p t)
  unfolding configure_target
  configure-Emits p t = search (emits_rules, enable_target-Emits, report-Emits) depth 20

  await-Emits : (t : String) → Emits no_tx (await_device H t)
  unfolding await_device
  await-Emits t = search (emits_rules, wait-Emits) depth 20

  link-Emits : (d t l k g : String) → Emits no_tx (link_device H d t l k g)
  unfolding link_device
  link-Emits d t l k g = search (emits_rules, await-Emits) depth 20

  loopback-Emits : (p : AttachParams) (t : String) → Emits no_tx (loopback_device H p t)
  unfolding loopback_device
  loopback-Emits p t = search (emits_rules, link-Emits) depth 20

  attach_device-Emits : (p : AttachParams) → Emits no_tx (attach_device H p)
  unfolding attach_device
  attach_device-Emits p = search (emits_rules, configure-Emits, loopback-Emits) depth 20

  mount_call-no_tx : (t w s d m : String) → no_tx (mount_call H t w s d m) ≡ true
  unfolding mount_call
  mount_call-no_tx t w s d m = ground arith

  retry_mount-Emits :
      (n : ℕ) (op : Op) (e : Error) → no_tx op ≡ true → Emits no_tx (retry_mount H n op e)
  unfolding retry_mount
  retry_mount-Emits zero op e p = search emits_rules
  retry_mount-Emits (suc n) op e p =
      let ih = λ (e' : Error). retry_mount-Emits n op e' p in search (emits_rules, ih, p) depth 12

  detach_device-Emits : (id : String) (t : ℤ) → Emits no_tx (detach_device H id t)
  unfolding detach_device
  detach_device-Emits id t = search emits_rules depth 20

  parent_in_use-Emits : (k e : String) → Emits no_tx (parent_in_use H k e)
  unfolding parent_in_use check_is_parent
  parent_in_use-Emits k e = search emits_rules depth 12

module _ (H : Host) (o : Snapshotter) where
  mount_device-Emits :
      (id w f : String) (mkfs : Bool) (d : String) → Emits no_tx (mount_device H o id w f mkfs d)
  unfolding mount_device
  mount_device-Emits id w f mkfs d =
      search (emits_rules, retry_mount-Emits, mount_call-no_tx) depth 20

  pub attach_and_mount-Emits :
      (id w f : String) (mkfs : Bool) → Emits no_tx (attach_and_mount_block_device H o id w f mkfs)
  unfolding attach_and_mount_block_device
  attach_and_mount-Emits id w f mkfs =
      search (emits_rules, attach_device-Emits, mount_device-Emits) depth 20

  pub unmount_and_detach-Emits :
      (id k e : String) → Emits no_tx (unmount_and_detach_block_device H o id k e)
  unfolding unmount_and_detach_block_device
  unmount_and_detach-Emits id k e =
      search (emits_rules, parent_in_use-Emits, detach_device-Emits) depth 20
