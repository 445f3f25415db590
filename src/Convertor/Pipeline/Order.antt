-- ===== src/Convertor/Pipeline/Order.antt =====
-- What happened in a run in which no goroutine has failed: each step of a layer follows those that
-- it needs, and the layers are built in their order.
use accelerated_container_im.Base.{
  ℕ, zero, suc, ◌<◌, ◌≡◌, ◌≢◌, refl, Bool, true, false, List, [], ◌∷◌, arith,
}
use accelerated_container_im.Convertor.Pipeline.{
  State, Download, delivering, downloaded, download_failed, Convert, for_layer, got_layer, building,
  sending, converted, gave_up, build_failed, Upload, got_converted, uploading, uploaded,
  upload_failed, Event, built, Action, build_ok, Enabled, next_state, Reach, start, later,
  start_state,
}
use accelerated_container_im.Convertor.Pipeline.Turns.{Turns, Reach-Turns}

abbrev pub has_layer : Download → Bool
has_layer delivering = true
has_layer downloaded = true
has_layer _ = false

-- The goroutine has asked the context behind its wait for the download.
abbrev pub needs_layer : Convert → Bool
needs_layer for_layer = false
needs_layer got_layer = false
needs_layer gave_up = false
needs_layer _ = true

abbrev pub is_built : Convert → Bool
is_built (sending _) = true
is_built converted = true
is_built _ = false

abbrev pub needs_built : Upload → Bool
needs_built uploading = true
needs_built uploaded = true
needs_built _ = false

-- The layers that were built, the newest first.
abbrev pub built_layers : List Event → List ℕ
built_layers [] = []
built_layers (built i ∷ es) = i ∷ built_layers es
built_layers (_ ∷ es) = built_layers es

abbrev pub down_from : ℕ → List ℕ
down_from zero = []
down_from (suc k) = k ∷ down_from k

-- How many layers are built behind an action.
abbrev count_next : Action → ℕ → ℕ
count_next (build_ok _) k = suc k
count_next _ k = k

abbrev pub builder : Action → ℕ
builder (build_ok i) = i
builder _ = 0

pub record Good (s : State) (k : ℕ) : Type 0 where
  pub order : built_layers s.log ≡ down_from k
  pub upto :
      (i : ℕ) → (is_built (s.convert i) ≡ true → i < k) × (i < k → is_built (s.convert i) ≡ true)
  pub sound_build : (i : ℕ) → s.convert i ≢ build_failed
  pub sound_download : (i : ℕ) → s.download i ≢ download_failed
  pub sound_upload : (i : ℕ) → s.upload i ≢ upload_failed
  pub layer : (i : ℕ) → needs_layer (s.convert i) ≡ true → has_layer (s.download i) ≡ true
  pub layer_got :
      (i : ℕ) → s.convert i ≡ got_layer → s.cancelled ≡ false → has_layer (s.download i) ≡ true
  pub up : (i : ℕ) → needs_built (s.upload i) ≡ true → is_built (s.convert i) ≡ true
  pub up_got :
      (i : ℕ) → s.upload i ≡ got_converted → s.cancelled ≡ false → is_built (s.convert i) ≡ true

module _ (n : ℕ) {s : State} (turns : Turns s) (k : ℕ) (good : Good s k) (a : Action)
    (g : Enabled n s a) (ok : (next_state n a s).failed ≡ false) where
  open good use {
    order, upto, sound_build, sound_download, sound_upload, layer, layer_got, up, up_got,
  }
  open turns use {gave, turn, got}

  keep_sound_build : (i : ℕ) → (next_state n a s).convert i ≢ build_failed
  keep_sound_build i e = ground (arith, g, ok, sound_build i)

  keep_sound_download : (i : ℕ) → (next_state n a s).download i ≢ download_failed
  keep_sound_download i e = ground (arith, g, ok, sound_download i)

  keep_sound_upload : (i : ℕ) → (next_state n a s).upload i ≢ upload_failed
  keep_sound_upload i e = ground (arith, g, ok, sound_upload i)

  keep_layer :
      (i : ℕ)
      → needs_layer ((next_state n a s).convert i) ≡ true
      → has_layer ((next_state n a s).download i) ≡ true
  keep_layer i e = ground (arith, g, ok, layer i, layer_got i, sound_download i)

  keep_layer_got :
      (i : ℕ)
      → (next_state n a s).convert i ≡ got_layer
      → (next_state n a s).cancelled ≡ false
      → has_layer ((next_state n a s).download i) ≡ true
  keep_layer_got i e c = ground (arith, g, ok, layer i, layer_got i, sound_download i)

  keep_up :
      (i : ℕ)
      → needs_built ((next_state n a s).upload i) ≡ true
      → is_built ((next_state n a s).convert i) ≡ true
  keep_up i e = ground (arith, g, ok, up i, up_got i, sound_build i)

  keep_up_got :
      (i : ℕ)
      → (next_state n a s).upload i ≡ got_converted
      → (next_state n a s).cancelled ≡ false
      → is_built ((next_state n a s).convert i) ≡ true
  keep_up_got i e c = ground (arith, g, ok, up i, up_got i, sound_build i, gave i)

  at_count : (i : ℕ) → s.convert i ≡ building → i ≡ k
  at_count zero e = ground (arith, e, upto 0)
  at_count (suc j) e = ground (arith, e, upto j, upto (suc j), turn j, sound_build j)

  keep_order : built_layers (next_state n a s).log ≡ down_from (count_next a k)
  keep_order = ground (arith, g, order, at_count (builder a))

  keep_below : (i : ℕ) → is_built ((next_state n a s).convert i) ≡ true → i < count_next a k
  keep_below i e = ground (arith, g, upto i, at_count i)

  keep_above : (i : ℕ) → i < count_next a k → is_built ((next_state n a s).convert i) ≡ true
  keep_above i l = ground (arith, g, upto i, at_count (builder a))

  next-Good : Good (next_state n a s) (count_next a k)
  next-Good = record {
    order = keep_order;
    upto = λ i. (keep_below i, keep_above i);
    sound_build = keep_sound_build;
    sound_download = keep_sound_download;
    sound_upload = keep_sound_upload;
    layer = keep_layer;
    layer_got = keep_layer_got;
    up = keep_up;
    up_got = keep_up_got;
  }

start-Good : Good start_state 0
start-Good = record {
  order = refl;
  upto = λ i. (λ e. ground arith, λ l. ground arith);
  sound_build = λ i e. ground arith;
  sound_download = λ i e. ground arith;
  sound_upload = λ i e. ground arith;
  layer = λ i e. ground arith;
  layer_got = λ i e c. ground arith;
  up = λ i e. ground arith;
  up_got = λ i e c. ground arith;
}

pub not_failed :
    (n : ℕ) (s : State) (a : Action)
    → Enabled n s a
    → (next_state n a s).failed ≡ false
    → s.failed ≡ false
not_failed n s a g e = ground (arith, g)

pub Reach-Good : {n : ℕ} {s : State} → Reach n s → s.failed ≡ false → (k : ℕ) × Good s k
Reach-Good start e = (0, start-Good)
Reach-Good {n} (later {s} a r g) e =
    let (k, good) = Reach-Good r (not_failed n s a g e) in
    (count_next a k, next-Good n (Reach-Turns r) k good a g e)
