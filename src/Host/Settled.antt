-- ===== src/Host/Settled.antt =====
-- The frame of a method that works in a write transaction: begin, a body that is rolled back if it
-- fails, the commit, and what comes behind it.
use accelerated_container_im.Base.{
  ◌≡◌, ◌≢◌, refl, ◌∙◌, ap, true, Option, none, some, ◌∷◌, ◌⊎◌, inl, inr, arith,
}
use accelerated_container_im.Host.{History, Host, tx_begin, tx_commit, tx_rollback}
use accelerated_container_im.Host.Exec.{
  Exec, act, on_error, ignore, pure, ◌>>=◌, ◌>>◌, after_error, continue, returned,
}
use accelerated_container_im.Host.Trace.{Emits}
use accelerated_container_im.Host.Transactions.{no_tx, txs, txs-Extends}
use accelerated_container_im.Host.Types.{Error, Result, ok, err}

-- What a method that returned `r` did to the store since `h`: it committed one transaction if it
-- succeeded. If it failed, the store refused to begin, or the one transaction was rolled back, or
-- its commit was asked for.
abbrev pub Settled {ℓ} : {A : Type ℓ} → Host → Result A → History → History → Type 0
Settled H (ok a) h h' = txs h' ≡ tx_commit ∷ tx_begin true ∷ txs h
Settled H (err e) h h' =
    ((H.acts h (tx_begin true) ≢ none) × (txs h' ≡ tx_begin true ∷ txs h))
    ⊎ ((txs h' ≡ tx_rollback ∷ tx_begin true ∷ txs h)
        ⊎ (txs h' ≡ tx_commit ∷ tx_begin true ∷ txs h))

-- An action whose only transaction call is a commit, which it makes whether it fails or not.
abbrev pub Commits {ℓ} : {A : Type ℓ} → Exec A → Type 0
Commits m = (h : History) → txs (m h).1 ≡ tx_commit ∷ txs h

module _ (H : Host) where
  pub Commits-act : Commits (act H tx_commit)
  unfolding act txs
  Commits-act h = refl

  pub Commits-ignore : Commits (ignore (act H tx_commit))
  unfolding act ignore txs
  Commits-ignore h = refl

module _ {ℓ} {B : Type ℓ} (H : Host) where
  -- The end of createMountPoint.
  pub Commits-on_error :
      (undo : Exec (Unit {0})) (finish : Exec B)
      → Emits no_tx undo
      → Emits no_tx finish
      → Commits (on_error undo (act H tx_commit >> finish))
  unfolding ◌>>=◌ txs
  Commits-on_error undo finish ku kf h = ground (
    arith,
    txs-Extends (kf.at (tx_commit ∷ h)),
    txs-Extends (ku.at (tx_commit ∷ h)),
    txs-Extends (ku.at (finish (tx_commit ∷ h)).1),
  )

  pub Commits-bind_pure : (m : Exec (Unit {0})) (b : B) → Commits m → Commits (m >>= λ _. pure b)
  unfolding ◌>>=◌
  Commits-bind_pure m b c h = ground (arith, c h)

module _ {ℓ κ} {A : Type ℓ} {B : Type κ} (H : Host) where
  -- The frame of the methods that write.
  abbrev pub in_transaction : Exec A → (A → Exec B) → Exec B
  in_transaction body rest = do
    act H (tx_begin true)
    a ← on_error (ignore (act H tx_rollback)) body
    rest a

module _ {ℓ κ} {A : Type ℓ} {B : Type κ} (H : Host) (body : Exec A) (rest : A → Exec B) where
  module _ (kb : Emits no_tx body) (cr : (a : A) → Commits (rest a)) where
    settle_rest :
        (h h' : History) (r : Result B)
        → txs h' ≡ tx_commit ∷ tx_begin true ∷ txs h
        → Settled H r h h'
    settle_rest h h' (ok b) e = e
    settle_rest h h' (err x) e = inr (inr e)

    settle_body :
        (h h' : History) (r : Result A)
        → txs h' ≡ tx_begin true ∷ txs h
        → let (r', h'') = after_error r (ignore (act H tx_rollback)) h' in
          Settled H (continue r' rest h'').0 h (continue r' rest h'').1
    unfolding ◌>>=◌ txs
    settle_body h h' (ok a) e = settle_rest h _ (rest a h').0 (cr a h' ∙ ap (λ t. tx_commit ∷ t) e)
    settle_body h h' (err x) e = inr (inl (ap (λ t. tx_rollback ∷ t) e))

    settle_begin :
        (h : History) (o : Option Error)
        → H.acts h (tx_begin true) ≡ o
        → let m = λ (_ : Unit {0}). on_error (ignore (act H tx_rollback)) body >>= rest in
          Settled H
            (continue (returned o) m (tx_begin true ∷ h)).0
            h
            (continue (returned o) m (tx_begin true ∷ h)).1
    unfolding ◌>>=◌ txs
    settle_begin h none e =
        let (r, h') = body (tx_begin true ∷ h) in
        settle_body h h' r (txs-Extends (kb.at (tx_begin true ∷ h)))
    settle_begin h (some x) e = inl (λ n. cc (e, n), refl)

    pub in_transaction-Settled :
        (h : History)
        → Settled H (in_transaction H body rest h).0 h (in_transaction H body rest h).1
    unfolding ◌>>=◌
    in_transaction-Settled h = settle_begin h (H.acts h (tx_begin true)) refl
