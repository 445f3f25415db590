-- ===== src/Snapshot/Quota/Exhausted.antt =====
-- When GetNextQuotaID (pkg/snapshot/diskquota/prjquota.go) comes to an end.
use accelerated_container_im.Base.{
  ℕ, zero, suc, ◌≤◌, ◌<◌, ◌^◌, ◌≡◌, refl, String, true, false, [], ◌∷◌, ◌==◌, nat_eq, leb, arith,
}
use accelerated_container_im.Base.Lists.{none_left}
use accelerated_container_im.Base.Text.{split}
use accelerated_container_im.Host.{History, Host, run}
use accelerated_container_im.Host.Exec.{Exec, ask, pure, attempt, on_result, ◌>>=◌}
use accelerated_container_im.Host.Types.{ok}
use accelerated_container_im.Snapshot.Quota.{
  QuotaDriver, quota_max_id, collect_ids, following_id, Allocation, allocated, unfinished,
  load_quota_ids, load_then, next_from, get_next_quota_id,
}
use accelerated_container_im.Snapshot.Quota.Fresh.{
  Ranged, none_listed, following_id-free, collect_ids-Ranged,
}

-- The largest ID, or one above it, is in use; the largest number of 32 bits is not.
abbrev pub Exhausted : QuotaDriver → Type 0
Exhausted d = Ranged d × (quota_max_id ≤ d.last_id) × (suc d.last_id < 2 ^ 32)

following_id-over :
    (d : QuotaDriver)
    → quota_max_id ≤ d.last_id
    → suc d.last_id < 2 ^ 32
    → leb (following_id d.last_id) quota_max_id ≡ false
unfolding following_id
following_id-over d l u = ground (arith, l, u)

following_id-suc :
    (d : QuotaDriver) → Ranged d → d.last_id < quota_max_id → following_id d.last_id ≡ suc d.last_id
unfolding following_id
following_id-suc d (a, l, u) m = ground (arith, l, m)

last_id-nonzero : (d : QuotaDriver) → Ranged d → (d.last_id == 0) ≡ false
unfolding nat_eq
last_id-nonzero d (a, l, u) = ground (arith, l)

suc-within : (n : ℕ) → n < quota_max_id → leb (suc n) quota_max_id ≡ true
suc-within n l = ground (arith, l)

-- The driver that a list of repquota makes.
abbrev pub listed_driver : String → QuotaDriver
listed_driver output = collect_ids none_listed (split 10 output)

listed_driver-Ranged : (output : String) → Ranged (listed_driver output)
listed_driver-Ranged output =
    collect_ids-Ranged (split 10 output) none_listed (none_left, omega arith, omega arith)

module _ (H : Host) (output : String)
    (lists : (h : History) → H.text h (run "repquota" ("-Pan" ∷ [])) ≡ ok output) where
  load-listed :
      (h : History)
      → load_quota_ids H h ≡ (ok (listed_driver output), run "repquota" ("-Pan" ∷ []) ∷ h)
  unfolding load_quota_ids ◌>>=◌ ask pure
  load-listed h = rw (lists h) refl

  load_then-listed :
      (next : QuotaDriver → Exec Allocation) (h : History)
      → load_then H next h ≡ next (listed_driver output) (run "repquota" ("-Pan" ∷ []) ∷ h)
  unfolding load_then ◌>>=◌ attempt on_result
  load_then-listed next h = rw (load-listed h) refl

  module _ (full : Exhausted (listed_driver output)) where
    next_from-unfinished :
        (rounds : ℕ) (d : QuotaDriver) (h : History)
        → Exhausted d
        → (next_from H rounds d d.last_id h).0 ≡ ok unfinished
    unfolding next_from pure
    next_from-unfinished zero d h x = refl
    next_from-unfinished (suc rounds) d h (r, l, u) = rw (following_id-free d r) (
        rw (following_id-over d l u) (
          rw (load_then-listed (λ e. next_from H rounds e e.last_id) h)
            (next_from-unfinished rounds (listed_driver output) _ full)))

    -- While repquota lists the largest ID, or one above it but not the largest number of 32 bits,
    -- GetNextQuotaID, called on a driver that has not loaded the list yet, does not return, whichever
    -- other IDs are free: no number of rounds is enough.
    pub get_next_quota_id-unfinished :
        (rounds : ℕ) (d : QuotaDriver) (h : History)
        → d.last_id ≡ 0
        → (get_next_quota_id H rounds d h).0 ≡ ok unfinished
    unfolding get_next_quota_id nat_eq
    get_next_quota_id-unfinished rounds d h e = rw e (
        rw (load_then-listed (λ e. next_from H rounds e e.last_id) h)
          (next_from-unfinished rounds (listed_driver output) _ full))

module _ (H : Host) where
  -- On a driver whose last ID is below the largest one GetNextQuotaID returns in one round, without a
  -- call: the next ID, which is then in use and the last ID.
  pub get_next_quota_id-next :
      (rounds : ℕ) (d : QuotaDriver) (h : History)
      → Ranged d
      → d.last_id < quota_max_id
      → get_next_quota_id H (suc rounds) d h ≡ (
        ok (
            allocated
              (suc d.last_id)
              (record { quota_ids = suc d.last_id ∷ d.quota_ids; last_id = suc d.last_id })),
        h,
      )
  unfolding get_next_quota_id next_from nat_eq pure
  get_next_quota_id-next rounds d h r l =
      rw (last_id-nonzero d r) (
        rw (following_id-free d r) (rw (following_id-suc d r l) (rw (suc-within d.last_id l) refl)))
