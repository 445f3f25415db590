-- ===== src/Convertor/Pipeline/Turns.antt =====
-- The turns of the convert goroutines: a layer is built only when the layer before it is over.
use accelerated_container_im.Base.{ℕ, zero, suc, ap, ◌+◌, ◌-◌, ◌<◌, ◌≡◌, Bool, true, false, arith}
use accelerated_container_im.Convertor.Pipeline.{
  State, Convert, got_previous, building, sending, converted, gave_up, build_failed, Action,
  Enabled, next_state, Reach, start, later, start_state,
}

-- BuildLayer has returned.
abbrev pub over : Convert → Bool
over (sending _) = true
over converted = true
over build_failed = true
over _ = false

-- BuildLayer was called.
abbrev pub ran : Convert → Bool
ran building = true
ran c = over c

pub record Turns (s : State) : Type 0 where
  -- A goroutine gives up only if the context is cancelled.
  pub gave : (i : ℕ) → s.convert i ≡ gave_up → s.cancelled ≡ true
  pub turn : (i : ℕ) → ran (s.convert (suc i)) ≡ true → over (s.convert i) ≡ true
  pub got :
      (i : ℕ) → s.convert (suc i) ≡ got_previous → s.cancelled ≡ false → over (s.convert i) ≡ true

module _ (n : ℕ) {s : State} (inv : Turns s) where
  open inv use {gave, turn, got}

  keep_gave :
      (a : Action)
      → Enabled n s a
      → (i : ℕ) → (next_state n a s).convert i ≡ gave_up
      → (next_state n a s).cancelled ≡ true
  keep_gave a g i e = ground (arith, g, gave i)

  keep_turn :
      (a : Action)
      → Enabled n s a
      → (i : ℕ) → ran ((next_state n a s).convert (suc i)) ≡ true
      → over ((next_state n a s).convert i) ≡ true
  keep_turn a g i e = ground (arith, g, turn i, got i, gave i)

  keep_got :
      (a : Action)
      → Enabled n s a
      → (i : ℕ) → (next_state n a s).convert (suc i) ≡ got_previous
      → (next_state n a s).cancelled ≡ false
      → over ((next_state n a s).convert i) ≡ true
  keep_got a g i e c = ground (arith, g, turn i, got i, gave i)

  next-Turns : (a : Action) → Enabled n s a → Turns (next_state n a s)
  next-Turns a g = record { gave = keep_gave a g; turn = keep_turn a g; got = keep_got a g }

start-Turns : Turns start_state
start-Turns = record {
  gave = λ i e. ground arith;
  turn = λ i e. ground arith;
  got = λ i e c. ground arith;
}

pub Reach-Turns : {n : ℕ} {s : State} → Reach n s → Turns s
Reach-Turns start = start-Turns
Reach-Turns {n} (later a r g) = next-Turns n (Reach-Turns r) a g

over_before :
    {s : State}
    → Turns s
    → (i d : ℕ) → ran (s.convert (suc (d + i))) ≡ true
    → over (s.convert i) ≡ true
over_before inv i zero e = ground (arith, e, inv.turn i)
over_before inv i (suc d) e = over_before inv i d (ground (arith, e, inv.turn (suc (d + i))))

one_below :
    {s : State}
    → Turns s
    → (i j : ℕ) → s.convert i ≡ building
    → s.convert j ≡ building
    → i < j
    → true ≡ false
one_below {s} inv i j p q l =
    let e : j ≡ suc ((j - suc i) + i) = omega arith in
    ground (arith, p, over_before inv i (j - suc i) (ground (arith, q, ap s.convert e)))

-- In every state that a schedule reaches, whatever the engine answers, whichever goroutine fails and
-- whenever the context is cancelled, BuildLayer runs for at most one layer, so that no two calls of
-- it use the engine's configuration at once.
pub building_alone :
    {n : ℕ} {s : State}
    → Reach n s
    → (i j : ℕ) → s.convert i ≡ building
    → s.convert j ≡ building
    → i ≡ j
building_alone r i j p q =
    let inv = Reach-Turns r in ground (arith, one_below inv i j p q, one_below inv j i q p)
