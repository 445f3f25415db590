-- ===== src/Host/Ends.antt =====
-- What an action returns and the calls that stand before it, whether it succeeds or fails: `Ends R P E m`
-- says that `m`, run behind calls for which `R` holds, returns a value for which `P` holds, or an error
-- for which `E` holds, with the calls made by then.
use accelerated_container_im.Base.{
  ◌≡◌, refl, Bool, true, false, Option, none, some, ◌∷◌, if◌then◌else◌,
}
use accelerated_container_im.Host.{Op, History, Host}
use accelerated_container_im.Host.Types.{Error, Result, ok, err}
use accelerated_container_im.Host.Exec.{
  Exec, act, ask, pure, fail, attempt, ignore, ◌>>=◌, continue, on_result, returned,
}

abbrev pub EndsAt {ℓ κ} :
    {A : Type ℓ} → (A → History → Type κ) → (Error → History → Type κ) → Result A → History → Type κ
EndsAt P E (ok a) h = P a h
EndsAt P E (err e) h = E e h

pub record Ends {ℓ κ μ} {A : Type ℓ} (R : History → Type μ) (P : A → History → Type κ)
    (E : Error → History → Type κ) (m : Exec A) : Type (ℓ ⊔ κ ⊔ μ) where
  pub at : (h : History) → R h → EndsAt P E (m h).0 (m h).1

module _ {ℓ κ} {A : Type ℓ} (P : A → History → Type κ) (E : Error → History → Type κ) where
  answer-EndsAt :
      (h : History) (x : Result A)
      → ((a : A) → x ≡ ok a → P a h)
      → ((e : Error) → x ≡ err e → E e h)
      → EndsAt P E x h
  answer-EndsAt h (ok a) p q = p a refl
  answer-EndsAt h (err e) p q = q e refl

module _ {ℓ κ μ} {A : Type ℓ} {R : History → Type μ} {P : A → History → Type κ}
    {E : Error → History → Type κ} where
  pub Ends-pure : (a : A) → ((h : History) → R h → P a h) → Ends R P E (pure a)
  unfolding pure
  Ends-pure a p = record { at = λ h r. p h r }

  pub Ends-fail : (e : Error) → ((h : History) → R h → E e h) → Ends R P E (fail e)
  unfolding fail
  Ends-fail e p = record { at = λ h r. p h r }

  pub Ends-if_of :
      (b : Bool) {m n : Exec A}
      → (b ≡ true → Ends R P E m)
      → (b ≡ false → Ends R P E n)
      → Ends R P E (if b then m else n)
  Ends-if_of true m n = m refl
  Ends-if_of false m n = n refl

  pub Ends-ask :
      (f : History → Op → Result A) (op : Op)
      → ((h : History) (a : A) → R h → f h op ≡ ok a → P a (op ∷ h))
      → ((h : History) (e : Error) → R h → f h op ≡ err e → E e (op ∷ h))
      → Ends R P E (ask f op)
  unfolding ask
  Ends-ask f op p q = record {
    at = λ h r. answer-EndsAt P E (op ∷ h) (f h op) (λ a x. p h a r x) (λ e x. q h e r x);
  }

module _ {κ} (P : Unit {0} → History → Type κ) (E : Error → History → Type κ) where
  returned-EndsAt :
      (h : History) (x : Option Error)
      → (x ≡ none → P tt h)
      → ((e : Error) → x ≡ some e → E e h)
      → EndsAt P E (returned x) h
  returned-EndsAt h none p q = p refl
  returned-EndsAt h (some e) p q = q e refl

module _ {κ μ} {R : History → Type μ} {P : Unit {0} → History → Type κ}
    {E : Error → History → Type κ} where
  pub Ends-act :
      (H : Host) (op : Op)
      → ((h : History) → R h → H.acts h op ≡ none → P tt (op ∷ h))
      → ((h : History) (e : Error) → R h → H.acts h op ≡ some e → E e (op ∷ h))
      → Ends R P E (act H op)
  unfolding act
  Ends-act H op p q = record {
    at = λ h r. returned-EndsAt P E (op ∷ h) (H.acts h op) (λ x. p h r x) (λ e x. q h e r x);
  }

  pub Ends-ignore-act :
      (H : Host) (op : Op) → ((h : History) → R h → P tt (op ∷ h)) → Ends R P E (ignore (act H op))
  unfolding ignore act
  Ends-ignore-act H op p = record { at = λ h r. p h r }

module _ {ℓ κ ν} {A : Type ℓ} {B : Type κ} (Q : A → History → Type ν) (P : B → History → Type ν)
    (E : Error → History → Type ν) where
  continue-EndsAt :
      (r : Result A) (f : A → Exec B) (h : History)
      → EndsAt Q E r h
      → ((a : A) → Ends (Q a) P E (f a))
      → EndsAt P E (continue r f h).0 (continue r f h).1
  continue-EndsAt (ok a) f h q k = (k a).at h q
  continue-EndsAt (err e) f h q k = q

  -- The result of an action is looked at.
  looked-EndsAt :
      (S : Error → History → Type ν) (r : Result A) (f : A → Exec B) (g : Error → Exec B)
      (h : History)
      → EndsAt Q S r h
      → ((a : A) → Ends (Q a) P E (f a))
      → ((e : Error) → Ends (S e) P E (g e))
      → EndsAt P E
          (continue {A = Result A} (ok r) (λ x. on_result x f g) h).0
          (continue {A = Result A} (ok r) (λ x. on_result x f g) h).1
  unfolding on_result
  looked-EndsAt S (ok a) f g h q k l = (k a).at h q
  looked-EndsAt S (err e) f g h q k l = (l e).at h q

module _ {ℓ κ μ ν} {A : Type ℓ} {B : Type κ} {R : History → Type μ} {Q : A → History → Type ν}
    {P : B → History → Type ν} {E : Error → History → Type ν} where
  pub Ends-bind :
      (m : Exec A) {f : A → Exec B}
      → Ends R Q E m
      → ((a : A) → Ends (Q a) P E (f a))
      → Ends R P E (m >>= f)
  unfolding ◌>>=◌
  Ends-bind m {f} q k = record {
    at = λ h r. let (x, h') = m h in continue-EndsAt Q P E x f h' (q.at h r) k;
  }

  pub Ends-try :
      {S : Error → History → Type ν} (m : Exec A) {f : A → Exec B} {g : Error → Exec B}
      → Ends R Q S m
      → ((a : A) → Ends (Q a) P E (f a))
      → ((e : Error) → Ends (S e) P E (g e))
      → Ends R P E (attempt m >>= λ r. on_result r f g)
  unfolding ◌>>=◌ attempt
  Ends-try {S} m {f} {g} q k l = record {
    at = λ h r. let (x, h') = m h in looked-EndsAt Q P E S x f g h' (q.at h r) k l;
  }

module _ {ℓ κ} {A : Type ℓ} {E F : Error → History → Type κ}
    (k : (e : Error) (h : History) → E e h → F e h) where
  weakened-EndsAt :
      (P : A → History → Type κ) (r : Result A) (h : History) → EndsAt P E r h → EndsAt P F r h
  weakened-EndsAt P (ok a) h p = p
  weakened-EndsAt P (err e) h p = k e h p

  pub Ends-weaken_error {μ} :
      {R : History → Type μ} {P : A → History → Type κ} {m : Exec A} → Ends R P E m → Ends R P F m
  Ends-weaken_error {P} {m} q = record { at = λ h r. weakened-EndsAt P (m h).0 (m h).1 (q.at h r) }
