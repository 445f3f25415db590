-- ===== src/Host/Discarded.antt =====
-- The frame of a method that only reads the store: its transaction is rolled back by a defer.
use accelerated_container_im.Base.{
  ◌≡◌, ◌≢◌, refl, ◌∙◌, Bool, Option, none, some, ◌∷◌, ◌⊎◌, inl, inr, arith,
}
use accelerated_container_im.Host.{History, Host, tx_begin, tx_rollback}
use accelerated_container_im.Host.Exec.{Exec, act, ensure, ignore, ◌>>=◌, ◌>>◌, continue, returned}
use accelerated_container_im.Host.Trace.{Emits}
use accelerated_container_im.Host.Transactions.{no_tx, txs, txs-Extends}
use accelerated_container_im.Host.Types.{Error, Result, ok, err}

-- What a method that returned `r` did to the store since `h`: one transaction was begun and rolled
-- back, or, if the method failed, the store may have refused to begin it.
abbrev pub Discarded {ℓ} : {A : Type ℓ} → Host → Bool → Result A → History → History → Type 0
Discarded H b (ok a) h h' = txs h' ≡ tx_rollback ∷ tx_begin b ∷ txs h
Discarded H b (err e) h h' =
    ((H.acts h (tx_begin b) ≢ none) × (txs h' ≡ tx_begin b ∷ txs h))
    ⊎ (txs h' ≡ tx_rollback ∷ tx_begin b ∷ txs h)

-- An action whose only transaction call is a rollback, which it makes whether it fails or not.
pub record RollsBack {ℓ} {A : Type ℓ} (m : Exec A) : Type ℓ where
  pub at : (h : History) → txs (m h).1 ≡ tx_rollback ∷ txs h

module _ {ℓ} {A : Type ℓ} (H : Host) {m : Exec A} where
  pub RollsBack-ensure : Emits no_tx m → RollsBack (ensure (ignore (act H tx_rollback)) m)
  unfolding ensure ignore act txs
  RollsBack-ensure k = record { at = λ h. ground (arith, txs-Extends (k.at h)) }

module _ {ℓ κ} {A : Type ℓ} {B : Type κ} where
  continue-txs :
      (r : Result A) (f : A → Exec B) (h : History)
      → ((a : A) → Emits no_tx (f a))
      → txs (continue r f h).1 ≡ txs h
  continue-txs (ok a) f h k = txs-Extends ((k a).at h)
  continue-txs (err e) f h k = refl

  pub RollsBack-bind :
      {m : Exec A} {f : A → Exec B}
      → RollsBack m
      → ((a : A) → Emits no_tx (f a))
      → RollsBack (m >>= f)
  unfolding ◌>>=◌
  RollsBack-bind {m} {f} k kf = record {
    at = λ h. let (r, h') = m h in continue-txs r f h' kf ∙ k.at h;
  }

module _ {ℓ} {A : Type ℓ} (H : Host) (b : Bool) (m : Exec A) where
  discard_rest :
      (r : Result A) (h h' : History)
      → txs h' ≡ tx_rollback ∷ tx_begin b ∷ txs h
      → Discarded H b r h h'
  discard_rest (ok a) h h' e = e
  discard_rest (err x) h h' e = inr e

  discard_begin :
      (h : History) (o : Option Error)
      → H.acts h (tx_begin b) ≡ o
      → RollsBack m
      → Discarded H b
          (continue (returned o) (λ _. m) (tx_begin b ∷ h)).0
          h
          (continue (returned o) (λ _. m) (tx_begin b ∷ h)).1
  unfolding txs
  discard_begin h none e k =
      let (r, h') = m (tx_begin b ∷ h) in discard_rest r h h' (k.at (tx_begin b ∷ h))
  discard_begin h (some x) e k = inl (λ n. cc (e, n), refl)

  pub begin-Discarded :
      RollsBack m
      → (h : History)
      → Discarded H b ((act H (tx_begin b) >> m) h).0 h ((act H (tx_begin b) >> m) h).1
  unfolding ◌>>=◌
  begin-Discarded k h = discard_begin h (H.acts h (tx_begin b)) refl k
