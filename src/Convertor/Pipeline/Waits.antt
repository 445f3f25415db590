-- ===== src/Convertor/Pipeline/Waits.antt =====
-- Who waits for whom on the channels, while the context is not cancelled.
use accelerated_container_im.Base.{ℕ, suc, ◌+◌, ◌≤◌, ◌≡◌, ◌≢◌, refl, true, false, arith}
use accelerated_container_im.Convertor.Pipeline.{
  State, checked, waiting, Convert, for_layer, got_layer, for_previous, sending, gave_up, Upload,
  for_converted, Action, Enabled, next_state, Reach, start, later, start_state, closed_download,
  sends,
}
use accelerated_container_im.Convertor.Pipeline.Turns.{over}

-- How often a layer was received: by its upload, and by the next layer.
abbrev pub by_upload : Upload → ℕ
by_upload for_converted = 0
by_upload _ = 1

abbrev pub by_next : Convert → ℕ
by_next for_layer = 0
by_next got_layer = 0
by_next for_previous = 0
by_next _ = 1

pub record Waits (n : ℕ) (s : State) : Type 0 where
  pub first : s.convert 0 ≢ for_previous
  pub beyond : (i : ℕ) → n ≤ i → s.convert i ≡ for_layer
  pub gave : (i : ℕ) → s.convert i ≡ gave_up → s.cancelled ≡ true
  pub offered : (i : ℕ) → s.dedup i ≢ checked → s.cancelled ≡ false → s.download i ≡ waiting
  pub delivered :
      (i : ℕ)
      → s.convert i ≢ for_layer
      → s.cancelled ≡ false
      → closed_download (s.download i) ≡ true
  -- Nothing is received before it is built.
  pub early :
      (i : ℕ)
      → over (s.convert i) ≡ false
      → s.cancelled ≡ false
      → (by_upload (s.upload i) ≡ 0) × (by_next (s.convert (suc i)) ≡ 0)
  -- The sends that are left are for those that have not received.
  pub count :
      (i k : ℕ)
      → s.convert i ≡ sending k
      → s.cancelled ≡ false
      → k + by_upload (s.upload i) + by_next (s.convert (suc i)) ≡ sends n i

module _ (n : ℕ) {s : State} (w : Waits n s) (a : Action) (g : Enabled n s a) where
  open w use {first, beyond, gave, offered, delivered, early, count}

  keep_first : (next_state n a s).convert 0 ≢ for_previous
  keep_first e = ground (arith, g, first)

  keep_beyond : (i : ℕ) → n ≤ i → (next_state n a s).convert i ≡ for_layer
  keep_beyond i l = ground (arith, g, beyond i)

  keep_gave : (i : ℕ) → (next_state n a s).convert i ≡ gave_up → (next_state n a s).cancelled ≡ true
  keep_gave i e = ground (arith, g, gave i)

  keep_offered :
      (i : ℕ)
      → (next_state n a s).dedup i ≢ checked
      → (next_state n a s).cancelled ≡ false
      → (next_state n a s).download i ≡ waiting
  keep_offered i e c = ground (arith, g, offered i)

  keep_delivered :
      (i : ℕ)
      → (next_state n a s).convert i ≢ for_layer
      → (next_state n a s).cancelled ≡ false
      → closed_download ((next_state n a s).download i) ≡ true
  keep_delivered i e c = ground (arith, g, delivered i)

  keep_early :
      (i : ℕ)
      → over ((next_state n a s).convert i) ≡ false
      → (next_state n a s).cancelled ≡ false
      → (by_upload ((next_state n a s).upload i) ≡ 0)
        × (by_next ((next_state n a s).convert (suc i)) ≡ 0)
  keep_early i e c = ground (arith, g, early i, gave i)

  keep_count :
      (i k : ℕ)
      → (next_state n a s).convert i ≡ sending k
      → (next_state n a s).cancelled ≡ false
      → k + by_upload ((next_state n a s).upload i) + by_next ((next_state n a s).convert (suc i))
        ≡ sends n i
  keep_count i k e c = ground (arith, g, count i k, count i (suc k), early i, beyond (suc i))

  next-Waits : Waits n (next_state n a s)
  next-Waits = record {
    first = keep_first;
    beyond = keep_beyond;
    gave = keep_gave;
    offered = keep_offered;
    delivered = keep_delivered;
    early = keep_early;
    count = keep_count;
  }

start-Waits : (n : ℕ) → Waits n start_state
start-Waits n = record {
  first = λ e. ground arith;
  beyond = λ i l. refl;
  gave = λ i e. ground arith;
  offered = λ i e c. refl;
  delivered = λ i e c. ground (arith, e);
  early = λ i e c. (refl, refl);
  count = λ i k e c. ground arith;
}

pub Reach-Waits : {n : ℕ} {s : State} → Reach n s → Waits n s
Reach-Waits {n} start = start-Waits n
Reach-Waits {n} (later a r g) = next-Waits n (Reach-Waits r) a g
