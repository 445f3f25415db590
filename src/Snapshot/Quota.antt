-- ===== src/Snapshot/Quota.antt =====
-- pkg/snapshot/diskquota (prjquota.go and quota_utils.go): project quotas, by the tools repquota,
-- lsattr, chattr and setquota.
pub mod Listed
pub mod Fresh
pub mod Exhausted
pub mod Printed
use Prim.Native.String.{len}
use accelerated_container_im.Base.{
  ℕ, zero, suc, ◌+◌, ◌-◌, ◌*◌, ◌/◌, ◌%◌, ◌^◌, String, ◌<>◌, Bool, true, false, not, ◌||◌, Option,
  none, some, List, [], ◌∷◌, ◌==◌, string_eq, nat_eq, contains, if◌then◌else◌, ltb, leb,
}
use accelerated_container_im.Base.Int.{ℤ, pos, negsuc}
use accelerated_container_im.Base.Text.{atoi, split, decimal, text_slice, contains_text, parent_dir}
use accelerated_container_im.Host.{Host, run, lstat, stat_fs, lookup_mount}
use accelerated_container_im.Host.Exec.{Exec, act, ask, pure, fail, attempt, on_result, ◌>>=◌, ◌>>◌}
use accelerated_container_im.Host.Types.{Error, failed}

abbrev pub quota_min_id : ℕ
quota_min_id = 16777216

abbrev pub quota_max_id : ℕ
quota_max_id = 200000000

-- safeConvertToUInt32
unfoldable pub safe_convert_to_uint32 : String → Option ℕ
unfolding atoi
safe_convert_to_uint32 text = elim (atoi text) [
  | some (pos n) ↦ if ltb n (2 ^ 32) then some n else none
  | some (negsuc n) ↦ none
  | none ↦ none
]

-- `parts[0]` of a split, which is never empty.
abbrev first_part : List String → String
first_part [] = ""
first_part (part ∷ _) = part

-- The ID that a line of repquota's list names, if it is above the smallest.
unfoldable pub listed_id : String → Option ℕ
unfolding text_slice split safe_convert_to_uint32 string_eq
listed_id line =
    let name = first_part (split b' ' line) in
    if not (text_slice line 0 1 == "#") || leb (len name) 1
    then none
    else elim (safe_convert_to_uint32 (text_slice name 1 (len name))) [
      | some id ↦ if ltb quota_min_id id then some id else none
      | none ↦ none
    ]

-- PrjQuotaDriver: the keys of its map, and the ID that was given last.
pub record QuotaDriver : Type 0 where
  pub quota_ids : List ℕ
  pub last_id : ℕ

-- One turn of the loop of loadQuotaIDs, for the ID that the line names.
abbrev pub with_listed : QuotaDriver → Option ℕ → QuotaDriver
with_listed d none = d
with_listed d (some id) = record {
  quota_ids = id ∷ d.quota_ids;
  last_id = if ltb d.last_id id then id else d.last_id;
}

unfoldable pub collect_ids : QuotaDriver → List String → QuotaDriver
unfolding listed_id
collect_ids d [] = d
collect_ids d (line ∷ lines) = collect_ids (with_listed d (listed_id line)) lines

-- The `id++` of GetNextQuotaID, in 32 bits, behind the raise to the smallest ID.
unfoldable pub following_id : ℕ → ℕ
following_id id = ((if ltb id quota_min_id then quota_min_id else id) + 1) % 2 ^ 32

-- What GetNextQuotaID comes to: an ID, an error, or no end within the rounds given; the driver's state
-- is changed in each case.
pub data Allocation : Type 0 where
  allocated : ℕ → QuotaDriver → Allocation
  not_loaded : Error → QuotaDriver → Allocation
  unfinished : Allocation

abbrev no_ids : QuotaDriver
no_ids = record { quota_ids = []; last_id = 0 }

-- uint64 of an int64, and the truncated quotient by 1024.
abbrev to_uint64 : ℤ → ℕ
to_uint64 (pos n) = n
to_uint64 (negsuc n) = 2 ^ 64 - 1 - n

abbrev kilobytes : ℤ → ℕ
kilobytes (pos n) = n / 1024
kilobytes (negsuc n) = (2 ^ 64 - suc n / 1024) % 2 ^ 64

module _ (H : Host) where
  -- loadQuotaIDs
  unfoldable pub load_quota_ids : Exec QuotaDriver
  unfolding collect_ids split
  load_quota_ids = do
    output ← ask H.text (run "repquota" ("-Pan" ∷ []))
    pure (collect_ids (record { quota_ids = []; last_id = quota_min_id }) (split 10 output))

  -- A load that fails leaves no IDs and 0 in the driver.
  unfoldable pub load_then : (QuotaDriver → Exec Allocation) → Exec Allocation
  load_then next = do
    loaded ← attempt load_quota_ids
    on_result loaded next (λ e. pure (not_loaded e no_ids))

  -- The loop of GetNextQuotaID, in at most `rounds` rounds.
  unfoldable pub next_from : ℕ → QuotaDriver → ℕ → Exec Allocation
  unfolding following_id nat_eq
  next_from zero d id = pure unfinished
  next_from (suc rounds) d id =
      let next = following_id id in
      let further = next_from rounds d next in
      let reloaded = λ (e : QuotaDriver). next_from rounds e e.last_id in
      if contains d.quota_ids next
      then further
      else if leb next quota_max_id
      then pure (allocated next (record { quota_ids = next ∷ d.quota_ids; last_id = next }))
      else load_then reloaded

  -- GetNextQuotaID; the driver is locked meanwhile.
  unfoldable pub get_next_quota_id : ℕ → QuotaDriver → Exec Allocation
  unfolding nat_eq
  get_next_quota_id rounds d =
      if d.last_id == 0
      then load_then (λ e. next_from rounds e e.last_id)
      else next_from rounds d d.last_id

  -- GetQuotaIDInFileAttr: the ID that lsattr shows for `dir`, or 0.
  unfoldable pub shown_id : String → List String → ℕ
  unfolding split safe_convert_to_uint32 string_eq
  shown_id dir [] = 0
  shown_id dir (line ∷ lines) =
      let rest = shown_id dir lines in
      elim (split b' ' line) [
        | (id ∷ flags ∷ name ∷ _) ↦
            if name == dir then elim (safe_convert_to_uint32 id) [ some n ↦ n | none ↦ 0 ] else rest
        | _ ↦ rest
      ]

  unfoldable pub get_quota_id_in_file_attr : String → Exec ℕ
  unfolding parent_dir split
  get_quota_id_in_file_attr dir = do
    listed ← attempt (ask H.text (run "lsattr" ("-p" ∷ parent_dir dir ∷ [])))
    on_result listed (λ output. pure (shown_id dir (split 10 output))) (λ e. pure 0)

  -- SetFileAttr
  unfoldable pub set_file_attr : String → ℕ → Exec (Unit {0})
  unfolding decimal
  set_file_attr dir id = act H (run "chattr" ("-p" ∷ decimal id ∷ "+P" ∷ dir ∷ []))

  -- setQuota
  unfoldable pub set_quota_of : ℕ → ℕ → String → Exec (Unit {0})
  unfolding decimal
  set_quota_of id blocks mountpoint =
      act H
        (run "setquota" ("-P" ∷ decimal id ∷ "0" ∷ decimal blocks ∷ "0" ∷ "0" ∷ mountpoint ∷ []))

  -- CheckMountpoint: the mount point, and whether its options have project quotas.
  unfoldable pub check_mountpoint : String → Exec (String × Bool)
  unfolding contains_text
  check_mountpoint dir = do
    found ← ask H.mount_info (lookup_mount dir)
    pure (found.0, contains_text found.1 "prjquota")

  -- getDevLimit: a product in 64 bits
  unfoldable pub get_dev_limit : String → Exec ℕ
  get_dev_limit mountpoint = do
    blocks ← ask H.blocks (stat_fs mountpoint)
    pure (blocks.0 * blocks.1 % 2 ^ 64)

  -- checkDevLimit
  unfoldable pub check_dev_limit : String → ℕ → Exec (Unit {0})
  check_dev_limit mountpoint size = do
    limit ← get_dev_limit mountpoint
    if ltb limit size then fail failed else pure tt

  -- What SetDiskQuota and SetDiskQuotaBytes do with a limit in bytes on a mount point.
  unfoldable pub limit_directory : String → String → ℤ → ℕ → Exec (Unit {0})
  limit_directory mountpoint dir limit id = do
    check_dev_limit mountpoint (to_uint64 limit)
    set_file_attr dir id
    set_quota_of id (kilobytes limit) mountpoint

  -- SetDiskQuotaBytes
  unfoldable pub set_disk_quota_bytes : String → ℤ → ℕ → Exec (Unit {0})
  set_disk_quota_bytes dir limit id = do
    found ← check_mountpoint dir
    if not found.1 then fail failed else limit_directory found.0 dir limit id

  -- SetDiskQuota: the size is a text that units.RAMInBytes reads.
  unfoldable pub set_quota_of_size : String → String → ℕ → Exec (Unit {0})
  set_quota_of_size dir size id = do
    found ← check_mountpoint dir
    if not found.1 then fail failed else do
      limit ← on_result (H.ram_in_bytes size) pure fail
      limit_directory found.0 dir limit id

  -- CheckRegularFile: the mode has none of the four neighbouring bits that mark a symbolic link, a
  -- device, a named pipe and a socket.
  unfoldable pub check_regular_file : String → Exec Bool
  unfolding nat_eq
  check_regular_file file = do mode ← ask H.number (lstat file); pure (mode / 2 ^ 24 % 2 ^ 4 == 0)
