-- ===== src/Snapshot/Device/Attach.antt =====
-- AttachDevice (storage.go): a device is made by writing to configfs. On failure the function
-- removes, from the last to the first, what it had registered for removal by then.
use accelerated_container_im.Base.{
  ℕ, zero, suc, String, ◌<>◌, Bool, true, false, List, [], ◌∷◌, if◌then◌else◌,
}
use accelerated_container_im.Base.Int.{ℤ}
use accelerated_container_im.Base.Text.{trim_suffix}
use accelerated_container_im.Host.{
  Host, mkdir_all, write_file, symlink, read_file, read_dir, stat, sleep, remove_all,
}
use accelerated_container_im.Host.Types.{Error, again, failed}
use accelerated_container_im.Host.Exec.{
  Exec, act, ask, pure, fail, attempt, ignore, on_error, on_result, ◌>>=◌, ◌>>◌,
}
use accelerated_container_im.Snapshot.Device.Names.{
  obd_hba_num, overlaybd_target_path, overlaybd_loopback_device_id, overlaybd_loopback_device_path,
  overlaybd_loopback_device_lun_path, scsi_block_device_path,
}

-- AttachDeviceParams
pub record AttachParams : Type 0 where
  pub id : String
  pub tenant : ℤ
  pub config_path : String
  pub result_file : String
  pub with_dev_id : Bool

-- math.MaxInt32/1000, in decimal
abbrev device_timeout : String
device_timeout = "2147483"

module _ (H : Host) where
  -- `retry` is the next round of the loop below: only EAGAIN is tried again.
  unfoldable pub on_enable_error : Error → Exec Bool → Exec Bool
  on_enable_error again retry = do ignore (act H (sleep 50)); retry
  on_enable_error e retry = fail e

  -- The loop that enables the target; `false` if every try met EAGAIN.
  unfoldable pub enable_target : ℕ → String → Exec Bool
  enable_target zero path = pure false
  enable_target (suc tries) path =
      let retry = enable_target tries path in
      do
        done ← attempt (act H (write_file path "1"))
        on_result done (λ _. pure true) (λ e. on_enable_error e retry)

  unfoldable pub first_entry : List String → Exec String
  first_entry [] = fail failed
  first_entry (name ∷ _) = do
    act H (write_file ("/sys/block/" <> name <> "/device/timeout") device_timeout)
    act H (stat ("/dev/" <> name))
    pure ("/dev/" <> name)

  -- findReadyBlockDevice; opening and closing the node is one call.
  unfoldable pub find_ready_block_device : String → Exec String
  unfolding first_entry
  find_ready_block_device number = do
    entries ← ask H.names (read_dir (scsi_block_device_path number))
    first_entry entries

  -- waitForBlockDevice with its injected `find`; `last` is lastErr.
  unfoldable pub wait_for_block_device : (String → Exec String) → ℕ → Error → String → Exec String
  wait_for_block_device find zero last number = fail last
  wait_for_block_device find (suc attempts) last number = do
    found ← attempt (find number)
    on_result found pure
        λ e. do ignore (act H (sleep 10)); wait_for_block_device find attempts e number

  abbrev remove_quietly : String → Exec (Unit {0})
  remove_quietly path = ignore (act H (remove_all path))

  abbrev dev_config : AttachParams → String
  dev_config p =
      if p.with_dev_id
      then "dev_config=overlaybd/" <> p.config_path <> ";" <> p.id
      else "dev_config=overlaybd/" <> p.config_path

  -- The error of a target that is not enabled, with the log in place of the EAGAIN if it can be read.
  unfoldable pub report_not_enabled : AttachParams → Bool → Exec (Unit {0})
  report_not_enabled p true = pure tt
  report_not_enabled p false = do
    log ← attempt (ask H.text (read_file p.result_file))
    on_result log (λ _. fail failed) (λ _. fail again)

  -- AttachDevice from its first write up to the command timeout
  unfoldable pub configure_target : AttachParams → String → Exec (Unit {0})
  configure_target p target = do
    act H (write_file (target <> "/control") (dev_config p))
    act H (write_file (target <> "/control") "max_data_area_mb=4")
    enabled ← enable_target 100 (target <> "/enable")
    report_not_enabled p enabled
    act H (write_file (target <> "/attrib/cmd_time_out") device_timeout)

  -- AttachDevice behind the link
  unfoldable pub await_device : String → Exec String
  await_device tpgt = do
    address ← ask H.text (read_file (tpgt <> "/address"))
    wait_for_block_device find_ready_block_device 500 failed (trim_suffix address "\n")

  -- AttachDevice between the directories of the loopback device and the end
  unfoldable pub link_device : String → String → String → String → String → Exec String
  link_device dev_id tpgt lun link target = do
    act H (write_file (tpgt <> "/nexus") dev_id)
    act H (symlink target link)
    on_error (remove_quietly link) (await_device tpgt)

  unfoldable pub loopback_device : AttachParams → String → Exec String
  loopback_device p target =
      let dev_id = overlaybd_loopback_device_id p.tenant p.id in
      let loop_dev = overlaybd_loopback_device_path dev_id in
      let tpgt = loop_dev <> "/tpgt_1" in
      let lun = overlaybd_loopback_device_lun_path dev_id in
      do
        act H (mkdir_all loop_dev)
        act H (mkdir_all lun)
        on_error (do remove_quietly lun; remove_quietly tpgt; remove_quietly loop_dev)
            (link_device dev_id tpgt lun (lun <> "/dev_" <> p.id) target)

  abbrev pub target_of : AttachParams → String
  target_of p = overlaybd_target_path (obd_hba_num p.tenant) p.id

  -- AttachDevice
  unfoldable pub attach_device : AttachParams → Exec String
  attach_device p =
      let target = target_of p in
      do
        act H (mkdir_all target)
        on_error (remove_quietly target) (do configure_target p target; loopback_device p target)
