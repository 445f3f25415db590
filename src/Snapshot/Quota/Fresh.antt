-- ===== src/Snapshot/Quota/Fresh.antt =====
-- The quota IDs that GetNextQuotaID (pkg/snapshot/diskquota/prjquota.go) gives.
use accelerated_container_im.Base.{
  ℕ, zero, suc, ◌≤◌, ◌<◌, ◌^◌, ◌≡◌, refl, ◌⊎◌, inl, inr, String, true, false, Option, none, some,
  List, [], ◌∷◌, ◌==◌, nat_eq, contains, ltb, leb, leb→le, Bool-cases, arith,
}
use accelerated_container_im.Base.Lists.{All, none_left, both}
use accelerated_container_im.Base.Text.{split}
use accelerated_container_im.Host.{Op, History, Host, run}
use accelerated_container_im.Host.Exec.{Exec}
use accelerated_container_im.Host.Types.{ok}
use accelerated_container_im.Host.Leaves.{
  Leaves, HoldsAt, Leaves-pure, Leaves-ask, Leaves-bind, Leaves-attempt, Leaves-if_of,
  Leaves-on_result,
}
use accelerated_container_im.Snapshot.Quota.Listed.{AllIn, collect_ids-AllIn}
use accelerated_container_im.Snapshot.Quota.{
  QuotaDriver, quota_min_id, quota_max_id, safe_convert_to_uint32, listed_id, with_listed,
  collect_ids, following_id, Allocation, allocated, not_loaded, unfinished, load_quota_ids,
  load_then, next_from, get_next_quota_id,
}

-- The IDs in use are above the smallest ID, and none is above the last.
abbrev pub Ranged : QuotaDriver → Type 0
Ranged d =
    All (λ id. (quota_min_id < id) × (id ≤ d.last_id)) d.quota_ids
    × (quota_min_id ≤ d.last_id)
    × (d.last_id < 2 ^ 32)

listed_id-in :
    (line : String) (id : ℕ) → listed_id line ≡ some id → (quota_min_id < id) × (id < 2 ^ 32)
unfolding listed_id safe_convert_to_uint32
listed_id-in line id e = ground (arith, e)

raised :
    (low high to : ℕ) (ids : List ℕ)
    → high ≤ to
    → All (λ id. (low < id) × (id ≤ high)) ids
    → All (λ id. (low < id) × (id ≤ to)) ids
raised low high to [] l none_left = none_left
raised low high to (id ∷ ids) l (both (p, q) a) =
    both (p, omega (arith, q, l)) (raised low high to ids l a)

with_listed-Ranged :
    (d : QuotaDriver) (o : Option ℕ)
    → ((id : ℕ) → o ≡ some id → (quota_min_id < id) × (id < 2 ^ 32))
    → Ranged d
    → Ranged (with_listed d o)
with_listed-Ranged d none k r = r
with_listed-Ranged d (some id) k (a, l, u) = elim (Bool-cases (ltb d.last_id id)) [
  | inl e ↦ rw e (
    both ((k id refl).0, omega arith)
        (raised quota_min_id d.last_id id d.quota_ids (ground (arith, e)) a),
    ground (arith, e),
    (k id refl).1,
  )
  | inr e ↦ rw e (both ((k id refl).0, ground (arith, e)) a, l, u)
]

pub collect_ids-Ranged :
    (lines : List String) (d : QuotaDriver) → Ranged d → Ranged (collect_ids d lines)
unfolding collect_ids
collect_ids-Ranged [] d r = r
collect_ids-Ranged (line ∷ lines) d r =
    collect_ids-Ranged lines _ (with_listed-Ranged d (listed_id line) (listed_id-in line) r)

contains-le :
    (low high x : ℕ) (ids : List ℕ)
    → All (λ id. (low < id) × (id ≤ high)) ids
    → contains ids x ≡ true
    → (low < x) × (x ≤ high)
unfolding nat_eq
contains-le low high x [] none_left e = absurd (ground (arith, e))
contains-le low high x (id ∷ ids) (both (p, q) a) e =
    ground (arith, e, p, q, contains-le low high x ids a)

following_id-above :
    (d : QuotaDriver)
    → Ranged d
    → (d.last_id < following_id d.last_id) ⊎ (following_id d.last_id ≡ 0)
unfolding following_id
following_id-above d (a, l, u) = ground (arith, l, u)

-- So the first ID behind the last is free.
pub following_id-free :
    (d : QuotaDriver) → Ranged d → contains d.quota_ids (following_id d.last_id) ≡ false
following_id-free d r = elim (Bool-cases (contains d.quota_ids (following_id d.last_id))) [
  | inr e ↦ e
  | inl e ↦
      let bounds = contains-le quota_min_id d.last_id _ d.quota_ids r.0 e in
      elim (following_id-above d r) [
        | inl p ↦ absurd (omega (arith, p, bounds.1))
        | inr p ↦ absurd (omega (arith, p, bounds.0))
      ]
]

-- The state of a driver that is at rest.
abbrev pub Rested : QuotaDriver → Type 0
Rested d = (d.last_id ≡ 0) ⊎ Ranged d

abbrev pub listing : Op
listing = run "repquota" ("-Pan" ∷ [])

-- `id` is not among `old`, the IDs in use, at most the largest ID, and above the smallest unless the
-- count wrapped around to 0; it becomes the last ID and one in use.
abbrev pub Given : List ℕ → ℕ → QuotaDriver → Type 0
Given old id d =
    (contains old id ≡ false)
    × (d ≡ record { quota_ids = id ∷ old; last_id = id })
    × (id ≤ quota_max_id)
    × ((quota_min_id < id) ⊎ (id ≡ 0))
    × Rested d

given :
    (d : QuotaDriver)
    → Ranged d
    → leb (following_id d.last_id) quota_max_id ≡ true
    → Given d.quota_ids (following_id d.last_id) (record {
      quota_ids = following_id d.last_id ∷ d.quota_ids;
      last_id = following_id d.last_id;
    })
given d (a, l, u) e = elim (following_id-above d (a, l, u)) [
  | inr z ↦ (following_id-free d (a, l, u), refl, leb→le _ _ e, inr z, inl z)
  | inl p ↦ (
    following_id-free d (a, l, u),
    refl,
    leb→le _ _ e,
    inl (omega (arith, l, p)),
    inr (
      both (omega (arith, l, p), omega arith)
          (raised quota_min_id d.last_id _ d.quota_ids (omega (arith, p)) a),
      omega (arith, l, p),
      omega (arith, leb→le _ _ e),
    ),
  )
]

abbrev pub none_listed : QuotaDriver
none_listed = record { quota_ids = []; last_id = quota_min_id }

module _ (H : Host) where
  -- The last call listed the IDs in use, and all that it listed are among `ids`.
  abbrev pub Listed : List ℕ → History → Type 0
  Listed ids h =
      (before : History) × (output : String) × (h ≡ listing ∷ before)
      × (H.text before listing ≡ ok output)
      × AllIn ids (split 10 output)

  load-Listed :
      {R : History → Type 0} → Leaves R (λ d h. Ranged d × Listed d.quota_ids h) (load_quota_ids H)
  unfolding load_quota_ids
  load-Listed =
      Leaves-bind
        {Q = λ output h.
          (before : History) × (h ≡ listing ∷ before) × (H.text before listing ≡ ok output)}
        _ (Leaves-ask _ _ (λ h output r e. (h, refl, e)))
        (λ output. Leaves-pure _ (λ h (before, p, e). (
          collect_ids-Ranged (split 10 output) none_listed (none_left, omega arith, omega arith),
          (before, output, p, e, collect_ids-AllIn (split 10 output) none_listed),
        )))

  module _ (start : QuotaDriver) (h0 : History) where
    -- The IDs in use: the driver's, and nothing was called, or those that the last call listed.
    abbrev pub InUse : List ℕ → History → Type 0
    InUse old h = ((h ≡ h0) × (old ≡ start.quota_ids)) ⊎ Listed old h

    abbrev pub Fresh : Allocation → History → Type 0
    Fresh (allocated id d) h = (old : List ℕ) × InUse old h × Given old id d
    Fresh (not_loaded e d) h = Rested d
    Fresh unfinished h = Unit

    load_then-Fresh :
        {R : History → Type 0} (next : QuotaDriver → Exec Allocation)
        → ((d : QuotaDriver) → Ranged d → Leaves (InUse d.quota_ids) Fresh (next d))
        → Leaves R Fresh (load_then H next)
    unfolding load_then
    load_then-Fresh next k = Leaves-bind _ (Leaves-attempt _ load-Listed) (λ loaded.
        Leaves-on_result (HoldsAt (λ d h. Ranged d × Listed d.quota_ids h)) loaded
          (λ d. record { at = λ h (r, l). (k d r).at h (inr l) })
          (λ e. Leaves-pure _ (λ h r. inl refl)))

    next_from-Fresh :
        (rounds : ℕ) (d : QuotaDriver)
        → Ranged d
        → Leaves (InUse d.quota_ids) Fresh (next_from H rounds d d.last_id)
    unfolding next_from
    next_from-Fresh zero d r = Leaves-pure _ (λ h u. tt)
    next_from-Fresh (suc rounds) d r =
        Leaves-if_of (contains d.quota_ids (following_id d.last_id))
          (λ y. absurd (cc (y, following_id-free d r)))
          (λ n.
            Leaves-if_of (leb (following_id d.last_id) quota_max_id)
              (λ l. Leaves-pure _ (λ h u. (d.quota_ids, u, given d r l)))
              (λ l. load_then-Fresh _ (next_from-Fresh rounds)))

    -- If GetNextQuotaID returns an ID, this is not among the IDs in use: those of the driver, if nothing
    -- was called, or else all that the last call, of repquota, listed above the smallest ID. It is in use
    -- and the last ID afterwards, and is at most the largest ID; it is above the smallest, or it is 0,
    -- which the count wraps around to. The driver's state keeps the invariant that the IDs in use lie
    -- between the smallest and the last ID, unless the last ID is 0, also if the list cannot be read.
    pub get_next_quota_id-Fresh :
        (rounds : ℕ) → Rested start → Leaves (λ h. h ≡ h0) Fresh (get_next_quota_id H rounds start)
    unfolding get_next_quota_id nat_eq
    get_next_quota_id-Fresh rounds rest =
        Leaves-if_of (start.last_id == 0) (λ e. load_then-Fresh _ (next_from-Fresh rounds))
          (λ e. elim rest [
            | inl z ↦ absurd (ground (arith, e, z))
            | inr r ↦ record { at = λ h q. (next_from-Fresh rounds start r).at h (inl (q, refl)) }
          ])
