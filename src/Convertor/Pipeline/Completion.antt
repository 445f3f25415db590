-- ===== src/Convertor/Pipeline/Completion.antt =====
-- Every schedule can be continued to its end, and one without an error to the call of UploadImage.
use accelerated_container_im.Base.{ℕ, zero, suc, ◌+◌, ◌*◌, ◌≤◌, ◌≡◌, inl, inr, true, false, arith}
use accelerated_container_im.Convertor.Pipeline.{
  State, Action, Enabled, Reach, later, next_state, Awaited, Returned,
}
use accelerated_container_im.Convertor.Pipeline.Progress.{internal, Reach-Can}
use accelerated_container_im.Convertor.Pipeline.Termination.{
  measure, measure_falls, steps, steps_le,
}

-- Some steps lead from one state to another.
pub data Leads (n : ℕ) : State → State → Type 0 where
  arrived : {s : State} → Leads n s s
  by_step : {s t : State} (a : Action) → Enabled n s a → Leads n (next_state n a s) t → Leads n s t

module _ (n : ℕ) (s : State) (f : s.failed ≡ false) (c : s.cancelled ≡ false) where
  -- A step in which nothing fails keeps both flags.
  stays_sound :
      (a : Action)
      → internal a ≡ true
      → Enabled n s a
      → ((next_state n a s).failed ≡ false) × ((next_state n a s).cancelled ≡ false)
  stays_sound a i g = ground (arith, f, c, i, g)

-- Some steps lead to the call of UploadImage.
abbrev pub Completes : ℕ → State → Type 0
Completes n s = (t : State) × Leads n s t × Awaited n t

within-Completes :
    {n : ℕ} (k : ℕ) {s : State}
    → Reach n s
    → s.failed ≡ false
    → s.cancelled ≡ false
    → measure n s ≤ k
    → Completes n s
within-Completes {n} zero {s} r f c m = elim (Reach-Can r) [
  | inl d ↦ (s, arrived, record { no_error = f; returned = d })
  | inr (a, i, g) ↦ absurd (omega (arith, m, measure_falls n s a g))
]
within-Completes {n} (suc k) {s} r f c m = elim (Reach-Can r) [
  | inl d ↦ (s, arrived, record { no_error = f; returned = d })
  | inr (a, i, g) ↦
      let (f', c') = stays_sound n s f c a i g in
      let (t, l, w) =
        within-Completes k (later a r g) f' c' (omega (arith, m, measure_falls n s a g)) in
      (t, by_step a g l, w)
]

pub Reach-Completes :
    {n : ℕ} {s : State} → Reach n s → s.failed ≡ false → s.cancelled ≡ false → Completes n s
Reach-Completes {n} {s} r f c = within-Completes (measure n s) r f c (omega arith)

-- Some steps lead to a state in which all goroutines have returned, each with an error or without.
abbrev pub Ends : ℕ → State → Type 0
Ends n s = (t : State) × Leads n s t × Returned n t

within-Ends : {n : ℕ} (k : ℕ) {s : State} → Reach n s → measure n s ≤ k → Ends n s
within-Ends {n} zero {s} r m = elim (Reach-Can r) [
  | inl d ↦ (s, arrived, d)
  | inr (a, i, g) ↦ absurd (omega (arith, m, measure_falls n s a g))
]
within-Ends {n} (suc k) {s} r m = elim (Reach-Can r) [
  | inl d ↦ (s, arrived, d)
  | inr (a, i, g) ↦
      let (t, l, d) = within-Ends k (later a r g) (omega (arith, m, measure_falls n s a g)) in
      (t, by_step a g l, d)
]

pub Reach-Ends : {n : ℕ} {s : State} (r : Reach n s) → (steps r ≤ 17 * n + 1) × Ends n s
Reach-Ends {n} {s} r = (steps_le r, within-Ends (measure n s) r (omega arith))
