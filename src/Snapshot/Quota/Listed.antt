-- ===== src/Snapshot/Quota/Listed.antt =====
-- The IDs that repquota's list names, and those that loadQuotaIDs (pkg/snapshot/diskquota/prjquota.go)
-- takes from it.
use Prim.Native.String.{len}
use accelerated_container_im.Base.{
  ℕ, ◌<◌, ◌≡◌, String, true, false, Option, none, some, List, [], ◌∷◌, nat_eq, string_eq, contains,
  leb, arith,
}
use accelerated_container_im.Base.Lists.{All, none_left, both}
use accelerated_container_im.Base.Text.{split, text_slice}
use accelerated_container_im.Snapshot.Quota.{
  QuotaDriver, quota_min_id, safe_convert_to_uint32, listed_id, with_listed, collect_ids,
}

-- A line of repquota's list names the ID `n`: its first word is "#" and the number.
abbrev pub Names : String → ℕ → Type 0
Names line n =
    (name : String) × (words : List String) × (text_slice line 0 1 ≡ "#")
    × (split b' ' line ≡ name ∷ words)
    × (leb (len name) 1 ≡ false)
    × (safe_convert_to_uint32 (text_slice name 1 (len name)) ≡ some n)

listed_id-Names :
    (line : String) (n : ℕ) → Names line n → quota_min_id < n → listed_id line ≡ some n
unfolding listed_id string_eq
listed_id-Names line n (name, words, mark, cut, long, number) l =
    rw (mark, cut, long, number) (ground (arith, l))

-- All IDs above the smallest that the lines name are among `ids`.
abbrev pub AllIn : List ℕ → List String → Type 0
AllIn ids lines =
    All (λ line. (n : ℕ) → Names line n → quota_min_id < n → contains ids n ≡ true) lines

with_listed-keeps :
    (d : QuotaDriver) (o : Option ℕ) (n : ℕ)
    → contains d.quota_ids n ≡ true
    → contains (with_listed d o).quota_ids n ≡ true
unfolding nat_eq
with_listed-keeps d none n e = e
with_listed-keeps d (some id) n e = ground (arith, e)

with_listed-has :
    (d : QuotaDriver) (o : Option ℕ) (n : ℕ)
    → o ≡ some n
    → contains (with_listed d o).quota_ids n ≡ true
unfolding nat_eq
with_listed-has d none n e = absurd (ground (arith, e))
with_listed-has d (some id) n e = ground (arith, e)

collect_ids-keeps :
    (lines : List String) (d : QuotaDriver) (n : ℕ)
    → contains d.quota_ids n ≡ true
    → contains (collect_ids d lines).quota_ids n ≡ true
unfolding collect_ids
collect_ids-keeps [] d n e = e
collect_ids-keeps (line ∷ lines) d n e =
    collect_ids-keeps lines _ n (with_listed-keeps d (listed_id line) n e)

pub collect_ids-AllIn :
    (lines : List String) (d : QuotaDriver) → AllIn (collect_ids d lines).quota_ids lines
unfolding collect_ids
collect_ids-AllIn [] d = none_left
collect_ids-AllIn (line ∷ lines) d =
    both
      (λ n k l.
        collect_ids-keeps lines (with_listed d (listed_id line)) n
          (with_listed-has d (listed_id line) n (listed_id-Names line n k l)))
      (collect_ids-AllIn lines (with_listed d (listed_id line)))
