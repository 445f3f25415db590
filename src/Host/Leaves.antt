-- ===== src/Host/Leaves.antt =====
-- What an action returns and the calls that stand before it, if it succeeds: `Leaves R P m` says that
-- `m`, run behind calls for which `R` holds, returns only a value for which `P` holds with the calls
-- made so far.
use accelerated_container_im.Base.{
  ◌≡◌, refl, Bool, true, false, Option, none, some, ◌∷◌, if◌then◌else◌,
}
use accelerated_container_im.Host.{Op, History, Host}
use accelerated_container_im.Host.Types.{Error, Result, ok, err}
use accelerated_container_im.Host.Exec.{
  Exec, act, ask, pure, fail, attempt, ◌>>=◌, continue, on_result, on_option, returned,
}

abbrev pub HoldsAt {ℓ κ} : {A : Type ℓ} → (A → History → Type κ) → Result A → History → Type κ
HoldsAt P (ok a) h = P a h
HoldsAt P (err e) h = Unit

pub record Leaves {ℓ κ μ} {A : Type ℓ} (R : History → Type κ) (P : A → History → Type μ)
    (m : Exec A) : Type (ℓ ⊔ κ ⊔ μ) where
  pub at : (h : History) → R h → HoldsAt P (m h).0 (m h).1

-- Nothing is known of the calls before.
abbrev pub Anywhere : History → Type 0
Anywhere h = Unit

-- `op` is the last call, behind calls for which `R` holds, and it was answered with success.
abbrev pub Done {κ} : Host → (History → Type κ) → Op → History → Type κ
Done H R op h = (before : History) × (h ≡ op ∷ before) × (H.acts before op ≡ none) × R before

-- `op` is the last call, behind calls for which `R` holds, and failed with `e`.
abbrev pub Failed {κ} : Host → (History → Type κ) → Op → Error → History → Type κ
Failed H R op e h = (before : History) × (h ≡ op ∷ before) × (H.acts before op ≡ some e) × R before

-- Either, for the result at hand.
abbrev pub Tried {κ} : Host → (History → Type κ) → Op → Result {0} (Unit {0}) → History → Type κ
Tried H R op (ok a) h = Done H R op h
Tried H R op (err e) h = Failed H R op e h

module _ {ℓ κ μ} {A : Type ℓ} {R : History → Type κ} {P : A → History → Type μ} where
  pub Leaves-pure : (a : A) → ((h : History) → R h → P a h) → Leaves R P (pure a)
  unfolding pure
  Leaves-pure a p = record { at = p }

  pub Leaves-fail : (e : Error) → Leaves R P (fail e)
  unfolding fail
  Leaves-fail e = record { at = λ h r. tt }

  pub Leaves-if_of :
      (b : Bool) {m n : Exec A}
      → (b ≡ true → Leaves R P m)
      → (b ≡ false → Leaves R P n)
      → Leaves R P (if b then m else n)
  Leaves-if_of true m n = m refl
  Leaves-if_of false m n = n refl

  -- What is known of the calls before is given up.
  pub Leaves-forget : {m : Exec A} → Leaves Anywhere P m → Leaves R P m
  Leaves-forget k = record { at = λ h r. k.at h tt }

  pub Leaves-ask :
      (f : History → Op → Result A) (op : Op)
      → ((h : History) (a : A) → R h → f h op ≡ ok a → P a (op ∷ h))
      → Leaves R P (ask f op)
  unfolding ask
  Leaves-ask f op k = record { at = λ h r. answered h (f h op) (λ a e. k h a r e) }
    where
      answered :
          (h : History) (x : Result A) → ((a : A) → x ≡ ok a → P a (op ∷ h)) → HoldsAt P x (op ∷ h)
      answered h (ok a) k = k a refl
      answered h (err e) k = tt

module _ {κ} (R : History → Type κ) (H : Host) (op : Op) (h : History) where
  op_Tried : (o : Option Error) → H.acts h op ≡ o → R h → Tried H R op (returned o) (op ∷ h)
  op_Tried none e r = (h, refl, e, r)
  op_Tried (some x) e r = (h, refl, e, r)

  op_Done :
      (o : Option Error)
      → H.acts h op ≡ o
      → R h
      → HoldsAt {A = Unit {0}} (λ x. Done H R op) (returned o) (op ∷ h)
  op_Done none e r = (h, refl, e, r)
  op_Done (some x) e r = tt

module _ {κ} {R : History → Type κ} where
  pub Leaves-try : (H : Host) (op : Op) → Leaves R (Tried H R op) (attempt (act H op))
  unfolding attempt act
  Leaves-try H op = record { at = λ h r. op_Tried R H op h (H.acts h op) refl r }

  pub Leaves-act : (H : Host) (op : Op) → Leaves R (λ x. Done H R op) (act H op)
  unfolding act
  Leaves-act H op = record { at = λ h r. op_Done R H op h (H.acts h op) refl r }

module _ {ℓ κ ν ξ} {A : Type ℓ} {B : Type κ} {Q : A → History → Type ν}
    {P : B → History → Type ξ} where
  continue-HoldsAt :
      (r : Result A) (f : A → Exec B) (h : History)
      → HoldsAt Q r h
      → ((a : A) → Leaves (Q a) P (f a))
      → HoldsAt P (continue r f h).0 (continue r f h).1
  continue-HoldsAt (ok a) f h q k = (k a).at h q
  continue-HoldsAt (err e) f h q k = tt

module _ {ℓ κ μ ν ξ} {A : Type ℓ} {B : Type κ} {R : History → Type μ} {Q : A → History → Type ν}
    {P : B → History → Type ξ} where
  pub Leaves-bind :
      (m : Exec A) {f : A → Exec B}
      → Leaves R Q m
      → ((a : A) → Leaves (Q a) P (f a))
      → Leaves R P (m >>= f)
  unfolding ◌>>=◌
  Leaves-bind m {f} q k = record {
    at = λ h r. let (x, h') = m h in continue-HoldsAt x f h' (q.at h r) k;
  }

module _ {ℓ κ ν} {A : Type ℓ} {B : Type κ} {P : B → History → Type ν} where
  Leaves-same :
      (f : A → Exec B) (a x : A) → x ≡ a → Leaves Anywhere P (f a) → Leaves Anywhere P (f x)
  Leaves-same f a x e k = rw e k

module _ {ℓ κ μ ν} {A : Type ℓ} {B : Type κ} {R : History → Type μ} {P : B → History → Type ν} where
  -- A bind that keeps nothing of the first action.
  pub Leaves-then :
      (m : Exec A) {f : A → Exec B} → ((a : A) → Leaves Anywhere P (f a)) → Leaves R P (m >>= f)
  Leaves-then m k =
      Leaves-bind {Q = λ a. Anywhere} m (record { at = λ h r. nothing (m h).0 (m h).1 }) k
    where
      nothing : (r : Result A) (h : History) → HoldsAt (λ a. Anywhere) r h
      nothing (ok a) h = tt
      nothing (err e) h = tt

  -- A bind whose first action returns a value that is known.
  pub Leaves-known :
      (m : Exec A) (f : A → Exec B) (a : A)
      → Leaves R (λ x h. x ≡ a) m
      → Leaves Anywhere P (f a)
      → Leaves R P (m >>= f)
  Leaves-known m f a q k =
      Leaves-bind m q (λ x. record { at = λ h e. (Leaves-same f a x e k).at h tt })

module _ {ℓ κ μ ν} {A : Type ℓ} {B : Type κ} {P : B → History → Type ν} where
  -- A result at hand that the calls before are known by.
  pub Leaves-on_result :
      (R : Result A → History → Type μ) (r : Result A) {f : A → Exec B} {g : Error → Exec B}
      → ((a : A) → Leaves (R (ok a)) P (f a))
      → ((e : Error) → Leaves (R (err e)) P (g e))
      → Leaves (R r) P (on_result r f g)
  unfolding on_result
  Leaves-on_result R (ok a) kf kg = kf a
  Leaves-on_result R (err e) kf kg = kg e

  pub Leaves-on_option :
      (R : Option A → History → Type μ) (o : Option A) {f : A → Exec B} {m : Exec B}
      → ((a : A) → Leaves (R (some a)) P (f a))
      → Leaves (R none) P m
      → Leaves (R o) P (on_option o f m)
  unfolding on_option
  Leaves-on_option R (some a) kf km = kf a
  Leaves-on_option R none kf km = km

module _ {ℓ κ μ} {A : Type ℓ} {R : History → Type κ} {Q : A → History → Type μ} where
  pub Leaves-attempt : (m : Exec A) → Leaves R Q m → Leaves R (HoldsAt Q) (attempt m)
  unfolding attempt
  Leaves-attempt m k = record { at = λ h r. k.at h r }
