-- ===== src/Snapshot/Device/Names.antt =====
-- The paths and identifiers of a device in configfs (storage.go).
use accelerated_container_im.Base.{ℕ, ◌+◌, ◌-◌, ◌%◌, String, ◌<>◌, zero, suc, ltb, if◌then◌else◌}
use Prim.Native.String.{len}
use accelerated_container_im.Base.Int.{ℤ, pos, negsuc, ◌+ℤ◌}
use accelerated_container_im.Base.Text.{decimal_ℤ}

-- obdHbaNum: -1 stands for the only snapshotter of the host
unfoldable pub obd_hba_num : ℤ → ℤ
obd_hba_num (negsuc zero) = pos 999999999
obd_hba_num tenant = tenant

-- `tenant % 100` rounds to zero
abbrev rem_100 : ℤ → ℤ
rem_100 (pos n) = pos (n % 100)
rem_100 (negsuc n) = if ltb 0 ((n + 1) % 100) then negsuc ((n + 1) % 100 - 1) else pos 0

-- obdLoopNaaPrefix
unfoldable pub obd_loop_naa_prefix : ℤ → ℤ
unfolding ◌+ℤ◌
obd_loop_naa_prefix (negsuc zero) = pos 199
obd_loop_naa_prefix tenant = rem_100 tenant +ℤ pos 100

-- overlaybdTargetPath
unfoldable pub overlaybd_target_path : ℤ → String → String
unfolding decimal_ℤ
overlaybd_target_path hba id =
    "/sys/kernel/config/target/core/user_" <> decimal_ℤ hba <> "/dev_" <> id

-- strings.Repeat("0", n)
unfoldable pub zeros : ℕ → String
zeros zero = ""
zeros (suc n) = "0" <> zeros n

-- The verb %03d; the program prints numbers from 1 to 199 with it.
abbrev pub padded : ℤ → String
padded n = let t = decimal_ℤ n in zeros (3 - len t) <> t

-- overlaybdLoopbackDeviceID. An ID has at most 13 characters: strings.Repeat panics on more.
unfoldable pub overlaybd_loopback_device_id : ℤ → String → String
unfolding zeros decimal_ℤ obd_loop_naa_prefix
overlaybd_loopback_device_id tenant id =
    "naa." <> padded (obd_loop_naa_prefix tenant) <> zeros (13 - len id) <> id

-- overlaybdLoopbackDevicePath, overlaybdLoopbackDeviceLunPath, scsiBlockDevicePath
abbrev pub overlaybd_loopback_device_path : String → String
overlaybd_loopback_device_path id = "/sys/kernel/config/target/loopback/" <> id

abbrev pub overlaybd_loopback_device_lun_path : String → String
overlaybd_loopback_device_lun_path id = overlaybd_loopback_device_path id <> "/tpgt_1/lun/lun_0"

abbrev pub scsi_block_device_path : String → String
scsi_block_device_path number = "/sys/class/scsi_device/" <> number <> ":0/device/block"
