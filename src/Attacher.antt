-- ===== src/Attacher.antt =====
-- cmd/overlaybd-attacher/main.go: a device is attached or detached by hand.
use accelerated_container_im.Base.{ℕ, zero, suc, String, ◌<>◌, Bool, ◌==◌, string_eq, if◌then◌else◌}
use accelerated_container_im.Base.Int.{ℤ, negsuc}
use accelerated_container_im.Base.Text.{parent_dir, text_slice}
use accelerated_container_im.Host.{Host, stat, read_config, sleep, abs_path}
use accelerated_container_im.Host.Exec.{Exec, act, ask, pure, fail, attempt, on_result, ◌>>=◌, ◌>>◌}
use accelerated_container_im.Host.Types.{Error, Config}
use accelerated_container_im.Snapshot.Device.Attach.{AttachParams, attach_device}
use accelerated_container_im.Snapshot.Device.Detach.{detach_device}

-- The tenant of a device that belongs to nobody.
abbrev no_tenant : ℤ
no_tenant = negsuc 0

-- The result file: a relative name is one in the directory of the configuration.
unfoldable pub result_file_of : String → String → String
unfolding parent_dir text_slice string_eq
result_file_of config_path result_file =
    if result_file == ""
    then parent_dir config_path <> "/init-debug.log"
    else if text_slice result_file 0 1 == "/"
    then result_file
    else parent_dir config_path <> "/" <> result_file

-- NewAttachDeviceParams, of the flags and of the configuration, whose path is absolute
unfoldable pub params_of : String → Bool → String → Config → AttachParams
unfolding result_file_of
params_of id with_dev_id path config = record {
  id = id;
  tenant = no_tenant;
  config_path = path;
  result_file = result_file_of path config.result_file;
  with_dev_id = with_dev_id;
}

module _ (H : Host) where
  -- The loop of attachAction behind an attempt that failed with `last`: `left` attempts are left, each
  -- behind a pause of a second.
  unfoldable pub attach_again : ℕ → Error → AttachParams → Exec String
  attach_again zero last params = fail last
  attach_again (suc left) last params = do
    act H (sleep 1000)
    attached ← attempt (attach_device H params)
    on_result attached pure (λ e. attach_again left e params)

  -- attachAction: the name of the device, which is printed.
  unfoldable pub attach_action : String → String → Bool → Exec String
  unfolding params_of
  attach_action id config_path with_dev_id = do
    act H (stat config_path)
    config ← ask H.config (read_config config_path)
    path ← ask H.text (abs_path config_path)
    attached ← attempt (attach_device H (params_of id with_dev_id path config))
    on_result attached pure (λ e. attach_again 4 e (params_of id with_dev_id path config))

  -- detachAction
  unfoldable pub detach_action : String → Exec (Unit {0})
  detach_action id = detach_device H id no_tenant
