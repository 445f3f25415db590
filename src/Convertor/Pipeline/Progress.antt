-- ===== src/Convertor/Pipeline/Progress.antt =====
-- No schedule is stuck before all goroutines have returned.
use accelerated_container_im.Base.{
  ℕ, zero, suc, ◌+◌, ◌<◌, ◌≡◌, refl, ◌⊎◌, inl, inr, Bool, true, false, arith, Bool-cases,
}
use mathlib.Core.Path.{subst}
use native.Mathlib.Decide.{dec_lt}
use accelerated_container_im.Convertor.Pipeline.{
  State, Dedup, checking, offering, checked, Download, waiting, fetching_converted, fetching,
  delivering, downloaded, download_failed, Convert, for_layer, got_layer, for_previous,
  got_previous, building, sending, converted, gave_up, build_failed, Upload, for_converted,
  got_converted, uploading, uploaded, upload_failed, Action, Enabled, Reach, is_sending,
  closed_download, closed_convert, sends, returned_dedup, returned_upload, Returned, hit,
  drop_offer, no_offer, converted_ok, fetch_ok, deliver, offer, drop_delivery, layer_closed,
  layer_next, layer_first, layer_stop, previous_closed, previous_go, previous_stop, build_ok,
  send_next, send_upload, drop_send, send_done, upload_closed, upload_go, upload_stop, upload_ok,
  interrupt, converted_bad, fetch_bad, build_bad, upload_bad,
}
use accelerated_container_im.Convertor.Pipeline.Waits.{Waits, Reach-Waits, by_next}

-- The steps in which the engine makes no error and the caller does not cancel.
abbrev pub internal : Action → Bool
internal interrupt = false
internal (converted_bad _) = false
internal (fetch_bad _) = false
internal (build_bad _) = false
internal (upload_bad _) = false
internal _ = true

-- Some goroutine, or the group, can take such a step.
abbrev pub Can : ℕ → State → Type 0
Can n s = (a : Action) × (internal a ≡ true) × Enabled n s a

module _ {n : ℕ} {s : State} (c : s.cancelled ≡ true) (w : Waits n s) (i : ℕ) (l : i < n) where
  stopped_dedup : (p : Dedup) → s.dedup i ≡ p → (returned_dedup p ≡ true) ⊎ Can n s
  stopped_dedup checking e = inr (hit i, refl, (l, e))
  stopped_dedup offering e = inr (drop_offer i, refl, (l, e, c))
  stopped_dedup checked e = inl refl

  stopped_download : (p : Download) → s.download i ≡ p → (closed_download p ≡ true) ⊎ Can n s
  stopped_download waiting e = inr (no_offer i, refl, (l, e, inr c))
  stopped_download fetching_converted e = inr (converted_ok i, refl, (l, e))
  stopped_download fetching e = inr (fetch_ok i, refl, (l, e))
  stopped_download delivering e = inr (drop_delivery i, refl, (l, e, c))
  stopped_download downloaded e = inl refl
  stopped_download download_failed e = inl refl

  stopped_upload : (p : Upload) → s.upload i ≡ p → (returned_upload p ≡ true) ⊎ Can n s
  stopped_upload for_converted e = inr (upload_closed i, refl, (l, e, inr c))
  stopped_upload got_converted e = inr (upload_stop i, refl, (l, e, c))
  stopped_upload uploading e = inr (upload_ok i, refl, (l, e))
  stopped_upload uploaded e = inl refl
  stopped_upload upload_failed e = inl refl

stopped_convert :
    {n : ℕ} {s : State}
    → s.cancelled ≡ true
    → Waits n s
    → (i : ℕ) → i < n
    → (p : Convert) → s.convert i ≡ p
    → (closed_convert p ≡ true) ⊎ Can n s
stopped_convert c w i l for_layer e = inr (layer_closed i, refl, (l, e, inr c))
stopped_convert c w i l got_layer e = inr (layer_stop i, refl, (l, e, c))
stopped_convert c w zero l for_previous e = absurd (w.first e)
stopped_convert c w (suc i) l for_previous e = inr (previous_closed i, refl, (l, e, inr c))
stopped_convert c w i l got_previous e = inr (previous_stop i, refl, (l, e, c))
stopped_convert c w i l building e = inr (build_ok i, refl, (l, e))
stopped_convert c w i l (sending zero) e = inr (send_done i, refl, (l, e))
stopped_convert c w i l (sending (suc k)) e = inr (drop_send i, refl, (l, ground (arith, e), c))
stopped_convert c w i l converted e = inl refl
stopped_convert c w i l gave_up e = inl refl
stopped_convert c w i l build_failed e = inl refl

module _ {n : ℕ} {s : State} (c : s.cancelled ≡ false) (w : Waits n s) where
  dedup_moves : (i : ℕ) → i < n → (p : Dedup) → s.dedup i ≡ p → (returned_dedup p ≡ true) ⊎ Can n s
  dedup_moves i l checking e = inr (hit i, refl, (l, e))
  dedup_moves i l offering e =
      inr (offer i, refl, (l, e, w.offered i (λ x. ground (arith, x, e)) c))
  dedup_moves i l checked e = inl refl

  waiting_moves :
      (i : ℕ)
      → i < n
      → s.download i ≡ waiting
      → (returned_dedup (s.dedup i) ≡ true) ⊎ Can n s
      → Can n s
  waiting_moves i l e (inl d) = (no_offer i, refl, (l, e, inl (ground (arith, d))))
  waiting_moves i l e (inr x) = x

  -- A layer that waits for its download can go on, or the download can.
  layer_moves :
      (i : ℕ) → i < n → s.convert i ≡ for_layer → (p : Download) → s.download i ≡ p → Can n s
  layer_moves i l q waiting e = waiting_moves i l e (dedup_moves i l (s.dedup i) refl)
  layer_moves i l q fetching_converted e = (converted_ok i, refl, (l, e))
  layer_moves i l q fetching e = (fetch_ok i, refl, (l, e))
  layer_moves i l q delivering e = (deliver i, refl, (l, e, q))
  layer_moves i l q downloaded e = (layer_closed i, refl, (l, q, inl (ground (arith, e))))
  layer_moves i l q download_failed e = (layer_closed i, refl, (l, q, inl (ground (arith, e))))

  got_moves : (i : ℕ) → i < n → s.convert i ≡ got_layer → Can n s
  got_moves zero l e = (layer_first 0, refl, (l, e, c, refl))
  got_moves (suc i) l e = (layer_next (suc i), refl, (l, e, c, omega arith))

  -- The next layer has not received layer `i`, which is being sent.
  next_moves :
      (i : ℕ)
      → suc i < n
      → is_sending (s.convert i) ≡ true
      → (p : Convert) → s.convert (suc i) ≡ p
      → by_next p ≡ 0
      → Can n s
  next_moves i l q for_layer e z = layer_moves (suc i) l e (s.download (suc i)) refl
  next_moves i l q got_layer e z = got_moves (suc i) l e
  next_moves i l q for_previous e z = (send_next i, refl, (l, q, e))
  next_moves i l q p e z = absurd (ground (arith, z))

  sending_moves :
      (i : ℕ)
      → i < n
      → (k : ℕ) → s.convert i ≡ sending (suc k)
      → (u : Upload) → s.upload i ≡ u
      → Can n s
  sending_moves i l k e for_converted q = (send_upload i, refl, (l, ground (arith, e), q))
  sending_moves i l k e got_converted q = (upload_go i, refl, (l, q, c))
  sending_moves i l k e uploading q = (upload_ok i, refl, (l, q))
  sending_moves i l k e u q =
      let all : k + 2 + by_next (s.convert (suc i)) ≡ sends n i =
        ground (arith, q, w.count i (suc k) e c) in
      next_moves i (ground (arith, all)) (ground (arith, e)) (s.convert (suc i)) refl
        (ground (arith, all))

  before_moves :
      (i : ℕ)
      → suc i < n
      → s.convert (suc i) ≡ for_previous
      → (p : Convert) → s.convert i ≡ p
      → (closed_convert p ≡ true) ⊎ Can n s
      → Can n s
  before_moves i l e p q (inr x) = x
  before_moves i l e p q (inl x) = (previous_closed i, refl, (l, e, inl (ground (arith, q, x))))

  -- By induction on the index: a layer that waits for the one below it can go on if that one has
  -- returned.
  convert_moves :
      (i : ℕ) → i < n → (p : Convert) → s.convert i ≡ p → (closed_convert p ≡ true) ⊎ Can n s
  convert_moves i l for_layer e = inr (layer_moves i l e (s.download i) refl)
  convert_moves i l got_layer e = inr (got_moves i l e)
  convert_moves zero l for_previous e = absurd (w.first e)
  convert_moves (suc i) l for_previous e =
      inr (before_moves i l e (s.convert i) refl (convert_moves i (omega arith) (s.convert i) refl))
  convert_moves i l got_previous e = inr (previous_go i, refl, (l, e, c))
  convert_moves i l building e = inr (build_ok i, refl, (l, e))
  convert_moves i l (sending zero) e = inr (send_done i, refl, (l, e))
  convert_moves i l (sending (suc k)) e = inr (sending_moves i l k e (s.upload i) refl)
  convert_moves i l converted e = inl refl
  convert_moves i l gave_up e = inl refl
  convert_moves i l build_failed e = inl refl

  download_moves :
      (i : ℕ) → i < n → (p : Download) → s.download i ≡ p → (closed_download p ≡ true) ⊎ Can n s
  download_moves i l waiting e = inr (waiting_moves i l e (dedup_moves i l (s.dedup i) refl))
  download_moves i l fetching_converted e = inr (converted_ok i, refl, (l, e))
  download_moves i l fetching e = inr (fetch_ok i, refl, (l, e))
  download_moves i l delivering e =
      inr (deliver i, refl, (l, e, ground (arith, e, w.delivered i, c)))
  download_moves i l downloaded e = inl refl
  download_moves i l download_failed e = inl refl

  upload_waits :
      (i : ℕ)
      → i < n
      → s.upload i ≡ for_converted
      → (closed_convert (s.convert i) ≡ true) ⊎ Can n s
      → Can n s
  upload_waits i l e (inl x) = (upload_closed i, refl, (l, e, inl x))
  upload_waits i l e (inr x) = x

  upload_moves :
      (i : ℕ) → i < n → (p : Upload) → s.upload i ≡ p → (returned_upload p ≡ true) ⊎ Can n s
  upload_moves i l for_converted e = inr (upload_waits i l e (convert_moves i l (s.convert i) refl))
  upload_moves i l got_converted e = inr (upload_go i, refl, (l, e, c))
  upload_moves i l uploading e = inr (upload_ok i, refl, (l, e))
  upload_moves i l uploaded e = inl refl
  upload_moves i l upload_failed e = inl refl

module _ {P : ℕ → Type 0} {Q : Type 0} where
  and_last : (n : ℕ) → ((i : ℕ) → i < n → P i) ⊎ Q → P n ⊎ Q → ((i : ℕ) → i < suc n → P i) ⊎ Q
  and_last n (inl f) (inl p) = inl (λ i l. elim (dec_lt i n) [
    | yes below ↦ f i below
    | no last ↦ (let e : n ≡ i = omega arith in subst P e p)
  ])
  and_last n (inr q) p = inr q
  and_last n (inl f) (inr q) = inr q

  -- If below `n` each index has `P` unless `Q`, all have `P` unless `Q`.
  for_all : (n : ℕ) → ((i : ℕ) → i < n → P i ⊎ Q) → ((i : ℕ) → i < n → P i) ⊎ Q
  for_all zero f = inl (λ i l. absurd (omega arith))
  for_all (suc n) f = and_last n (for_all n (λ i l. f i (omega (arith, l)))) (f n (omega arith))

returned_or :
    {n : ℕ} {s : State}
    → ((i : ℕ) → i < n → returned_dedup (s.dedup i) ≡ true) ⊎ Can n s
    → ((i : ℕ) → i < n → closed_download (s.download i) ≡ true) ⊎ Can n s
    → ((i : ℕ) → i < n → closed_convert (s.convert i) ≡ true) ⊎ Can n s
    → ((i : ℕ) → i < n → returned_upload (s.upload i) ≡ true) ⊎ Can n s
    → Returned n s ⊎ Can n s
returned_or (inl a) (inl b) (inl c) (inl d) =
    inl (record { dedups = a; downloads = b; converts = c; uploads = d })
returned_or (inr x) b c d = inr x
returned_or (inl a) (inr x) c d = inr x
returned_or (inl a) (inl b) (inr x) d = inr x
returned_or (inl a) (inl b) (inl c) (inr x) = inr x

-- No deadlock: in every state that a schedule reaches, whatever the engine answered and whether or
-- not a goroutine failed or the context is cancelled, either all goroutines have returned or one of
-- them can take a step, without waiting for the caller to cancel or for an error of the engine.
pub Reach-Can : {n : ℕ} {s : State} → Reach n s → Returned n s ⊎ Can n s
Reach-Can {n} {s} r =
    let w = Reach-Waits r in
    elim (Bool-cases s.cancelled) [
      | inl c ↦
          returned_or (for_all n (λ i l. stopped_dedup c w i l (s.dedup i) refl))
            (for_all n (λ i l. stopped_download c w i l (s.download i) refl))
            (for_all n (λ i l. stopped_convert c w i l (s.convert i) refl))
            (for_all n (λ i l. stopped_upload c w i l (s.upload i) refl))
      | inr c ↦
          returned_or (for_all n (λ i l. dedup_moves c w i l (s.dedup i) refl))
            (for_all n (λ i l. download_moves c w i l (s.download i) refl))
            (for_all n (λ i l. convert_moves c w i l (s.convert i) refl))
            (for_all n (λ i l. upload_moves c w i l (s.upload i) refl))
    ]
