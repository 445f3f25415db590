-- ===== src/Convertor/Pipeline/Log.antt =====
-- The log of a run in which no goroutine has failed, up to the upload of the image.
use accelerated_container_im.Base.{
  ℕ, zero, suc, ◌<◌, ◌≤◌, ◌≡◌, refl, ap, ◌∙◌, ◌⊎◌, Bool, true, false, List, [], ◌∷◌, arith,
}
use accelerated_container_im.Convertor.Pipeline.{
  Awaited, State, for_layer, building, uploading, uploaded, Event, fetched, built, stored, Action,
  upload_ok, Enabled, next_state, Reach, start, later, start_state,
}
use accelerated_container_im.Convertor.Pipeline.Order.{
  has_layer, is_built, built_layers, down_from, Good, Reach-Good, not_failed, builder,
}
use accelerated_container_im.Convertor.Pipeline.Turns.{Turns, Reach-Turns}

abbrev pub Elem : Event → List Event → Type 0
Elem e [] = true ≡ false
Elem e (x ∷ xs) = (e ≡ x) ⊎ Elem e xs

-- What must have happened before an event: a layer is built from its download and on the layer below,
-- and what is uploaded was built.
abbrev pub Needed : Event → List Event → Type 0
Needed (fetched i) es = Unit
Needed (built zero) es = Elem (fetched 0) es
Needed (built (suc i)) es = Elem (fetched (suc i)) es × Elem (built i) es
Needed (stored i) es = Elem (built i) es

abbrev pub Ordered : List Event → Type 0
Ordered [] = Unit
Ordered (e ∷ es) = Needed e es × Ordered es

abbrev uploader : Action → ℕ
uploader (upload_ok i) = i
uploader _ = 0

record Logged (n : ℕ) (s : State) : Type 0 where
  has_fetched : (i : ℕ) → has_layer (s.download i) ≡ true → Elem (fetched i) s.log
  has_built : (i : ℕ) → is_built (s.convert i) ≡ true → Elem (built i) s.log
  has_stored : (i : ℕ) → s.upload i ≡ uploaded → Elem (stored i) s.log
  ordered : Ordered s.log
  beyond : (i : ℕ) → n ≤ i → s.convert i ≡ for_layer

module _ (n : ℕ) {s : State} (turns : Turns s) (k : ℕ) (good : Good s k) (l : Logged n s)
    (a : Action) (g : Enabled n s a) where
  open l use {has_fetched, has_built, has_stored, ordered, beyond}
  open good use {layer, up, upto, sound_build}
  open turns use {turn}

  keep_has_fetched :
      (i : ℕ)
      → has_layer ((next_state n a s).download i) ≡ true
      → Elem (fetched i) (next_state n a s).log
  keep_has_fetched i e = ground (arith, g, has_fetched i)

  keep_has_built :
      (i : ℕ)
      → is_built ((next_state n a s).convert i) ≡ true
      → Elem (built i) (next_state n a s).log
  keep_has_built i e = ground (arith, g, has_built i)

  keep_has_stored :
      (i : ℕ) → (next_state n a s).upload i ≡ uploaded → Elem (stored i) (next_state n a s).log
  keep_has_stored i e = ground (arith, g, has_stored i)

  keep_beyond : (i : ℕ) → n ≤ i → (next_state n a s).convert i ≡ for_layer
  keep_beyond i e = ground (arith, g, beyond i)

  ready_to_build : (i : ℕ) → s.convert i ≡ building → Needed (built i) s.log
  ready_to_build zero e = has_fetched 0 (layer 0 (ground (arith, e)))
  ready_to_build (suc i) e = (
    has_fetched (suc i) (layer (suc i) (ground (arith, e))),
    has_built i (ground (arith, e, turn i, sound_build i)),
  )

  ready_to_store : (i : ℕ) → s.upload i ≡ uploading → Elem (built i) s.log
  ready_to_store i e = has_built i (up i (ground (arith, e)))

  log_Ordered : Ordered (next_state n a s).log
  log_Ordered = ground (arith, g, ordered, ready_to_build (builder a), ready_to_store (uploader a))

  next-Logged : Logged n (next_state n a s)
  next-Logged = record {
    has_fetched = keep_has_fetched;
    has_built = keep_has_built;
    has_stored = keep_has_stored;
    ordered = log_Ordered;
    beyond = keep_beyond;
  }

start-Logged : (n : ℕ) → Logged n start_state
start-Logged n = record {
  has_fetched = λ i e. ground arith;
  has_built = λ i e. ground arith;
  has_stored = λ i e. ground arith;
  ordered = tt;
  beyond = λ i e. refl;
}

Reach-Logged : {n : ℕ} {s : State} → Reach n s → s.failed ≡ false → Logged n s
Reach-Logged {n} start e = start-Logged n
Reach-Logged {n} (later {s} a r g) e =
    let ok = not_failed n s a g e in
    let (k, good) = Reach-Good r ok in next-Logged n (Reach-Turns r) k good (Reach-Logged r ok) a g

-- What is known when UploadImage is called: the log is ordered, layer 0, layer 1 and so on were
-- built in this order and nothing else was, and every layer was uploaded.
abbrev pub Complete : ℕ → List Event → Type 0
Complete n es =
    Ordered es × (built_layers es ≡ down_from n) × ((i : ℕ) → i < n → Elem (stored i) es)

same_count :
    (n k : ℕ) (f : ℕ → Bool)
    → ((i : ℕ) → (f i ≡ true → i < k) × (i < k → f i ≡ true))
    → ((i : ℕ) → i < n → f i ≡ true)
    → ((i : ℕ) → n ≤ i → f i ≡ false)
    → k ≡ n
same_count n k f u below above = ground (arith, below k, above n, u k, u n)

-- UploadImage is called only if no goroutine failed, and then every layer was downloaded, was built
-- from its download on top of the layer below it, in the order of the layers and once each, and was
-- uploaded after it was built.
pub Awaited-Complete : {n : ℕ} {s : State} → Reach n s → Awaited n s → Complete n s.log
Awaited-Complete {n} {s} r w =
    let (k, good) = Reach-Good r w.no_error in
    let l = Reach-Logged r w.no_error in
    let done : (i : ℕ) → i < n → s.upload i ≡ uploaded =
      λ i lt. ground (arith, w.uploads i lt, good.sound_upload i) in
    let count : k ≡ n =
      same_count n k (λ i. is_built (s.convert i)) good.upto
        (λ i lt. ground (arith, done i lt, good.up i)) (λ i ge. ground (arith, l.beyond i ge)) in
    (l.ordered, good.order ∙ ap down_from count, λ i lt. l.has_stored i (done i lt))
