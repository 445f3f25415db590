-- ===== src/Host/Returns.antt =====
-- What an action returns if it succeeds: a rule for each way to build an action, for `search`.
use accelerated_container_im.Base.{◌≡◌, refl, Bool, true, false, Option, none, some, if◌then◌else◌}
use accelerated_container_im.Host.{Op, History, Host}
use accelerated_container_im.Host.Types.{Error, Result, ok, err}
use accelerated_container_im.Host.Exec.{
  Exec, act, returned, ask, pure, fail, ensure, attempt, ◌>>=◌, continue, on_result, on_option,
}

-- The value of a result satisfies `P`, if there is one.
abbrev pub Holds {ℓ κ} : {A : Type ℓ} → (A → Type κ) → Result A → Type κ
Holds P (ok a) = P a
Holds P (err e) = Unit

pub record Returns {ℓ κ} {A : Type ℓ} (P : A → Type κ) (m : Exec A) : Type (ℓ ⊔ κ) where
  pub at : (h : History) → Holds P (m h).0

module _ {ℓ κ} {A : Type ℓ} {P : A → Type κ} where
  pub Returns-pure : (a : A) → P a → Returns P (pure a)
  unfolding pure
  Returns-pure a p = record { at = λ h. p }

  pub Returns-fail : (e : Error) → Returns P (fail e)
  unfolding fail
  Returns-fail e = record { at = λ h. tt }

  pub Returns-ask :
      (f : History → Op → Result A) (op : Op)
      → ((h : History) (a : A) → f h op ≡ ok a → P a)
      → Returns P (ask f op)
  unfolding ask
  Returns-ask f op k = record { at = λ h. answered (f h op) (k h) }
    where
      answered : (x : Result A) → ((a : A) → x ≡ ok a → P a) → Holds P x
      answered (ok a) k = k a refl
      answered (err e) k = tt

  pub Returns-if :
      (b : Bool) {m n : Exec A} → Returns P m → Returns P n → Returns P (if b then m else n)
  Returns-if true m n = m
  Returns-if false m n = n

  pub Returns-if_of :
      (b : Bool) {m n : Exec A}
      → (b ≡ true → Returns P m)
      → (b ≡ false → Returns P n)
      → Returns P (if b then m else n)
  Returns-if_of true m n = m refl
  Returns-if_of false m n = n refl

  pub Returns-ensure : (c : Exec (Unit {0})) {m : Exec A} → Returns P m → Returns P (ensure c m)
  unfolding ensure
  Returns-ensure c k = record { at = λ h. k.at h }

module _ {ℓ κ μ} {A : Type ℓ} {B : Type κ} {P : B → Type μ} where
  continue-Holds :
      (r : Result A) (f : A → Exec B) (h : History)
      → ((a : A) → Returns P (f a))
      → Holds P (continue r f h).0
  continue-Holds (ok a) f h k = (k a).at h
  continue-Holds (err e) f h k = tt

  pub Returns-bind :
      (m : Exec A) {f : A → Exec B} → ((a : A) → Returns P (f a)) → Returns P (m >>= f)
  unfolding ◌>>=◌
  Returns-bind m {f} k = record { at = λ h. let (r, h') = m h in continue-Holds r f h' k }

  pub Returns-on_result :
      (r : Result A) {f : A → Exec B} {g : Error → Exec B}
      → ((a : A) → Returns P (f a))
      → ((e : Error) → Returns P (g e))
      → Returns P (on_result r f g)
  unfolding on_result
  Returns-on_result (ok a) kf kg = kf a
  Returns-on_result (err e) kf kg = kg e

  pub Returns-on_option :
      (o : Option A) {f : A → Exec B} {m : Exec B}
      → ((a : A) → Returns P (f a))
      → Returns P m
      → Returns P (on_option o f m)
  unfolding on_option
  Returns-on_option (some a) kf km = kf a
  Returns-on_option none kf km = km

  pub Returns-on_option_of :
      (o : Option A) {f : A → Exec B} {m : Exec B}
      → ((a : A) → o ≡ some a → Returns P (f a))
      → (o ≡ none → Returns P m)
      → Returns P (on_option o f m)
  unfolding on_option
  Returns-on_option_of (some a) kf km = kf a refl
  Returns-on_option_of none kf km = km refl

module _ {ℓ κ μ ν} {A : Type ℓ} {B : Type κ} {P : B → Type μ} {Q : A → Type ν} where
  continue_of-Holds :
      (r : Result A) (f : A → Exec B) (h : History)
      → Holds Q r
      → ((a : A) → Q a → Returns P (f a))
      → Holds P (continue r f h).0
  continue_of-Holds (ok a) f h q k = (k a q).at h
  continue_of-Holds (err e) f h q k = tt

  -- A bind whose second action relies on what the first returns.
  pub Returns-bind_of :
      (m : Exec A) {f : A → Exec B}
      → Returns Q m
      → ((a : A) → Q a → Returns P (f a))
      → Returns P (m >>= f)
  unfolding ◌>>=◌
  Returns-bind_of m {f} q k = record {
    at = λ h. let (r, h') = m h in continue_of-Holds r f h' (q.at h) k;
  }

  pub Returns-on_result_of :
      (r : Result A) {f : A → Exec B} {g : Error → Exec B}
      → Holds Q r
      → ((a : A) → Q a → Returns P (f a))
      → ((e : Error) → Returns P (g e))
      → Returns P (on_result r f g)
  unfolding on_result
  Returns-on_result_of (ok a) q kf kg = kf a q
  Returns-on_result_of (err e) q kf kg = kg e

module _ {ℓ κ μ} {A : Type ℓ} {P : A → Type κ} {Q : A → Type μ} where
  Holds-weaken : ((a : A) → P a → Q a) → (r : Result A) → Holds P r → Holds Q r
  Holds-weaken f (ok a) p = f a p
  Holds-weaken f (err e) p = tt

  pub Returns-weaken : ((a : A) → P a → Q a) → {m : Exec A} → Returns P m → Returns Q m
  Returns-weaken f {m} k = record { at = λ h. Holds-weaken f (m h).0 (k.at h) }

module _ {ℓ κ} {A : Type ℓ} {Q : A → Type κ} where
  pub Returns-attempt : (m : Exec A) → Returns Q m → Returns (Holds Q) (attempt m)
  unfolding attempt
  Returns-attempt m k = record { at = λ h. k.at h }

-- A call that succeeded was answered with success.
module _ (H : Host) (op : Op) where
  Holds-returned :
      (h : History) (o : Option Error)
      → H.acts h op ≡ o
      → Holds (λ (x : Unit {0}). (before : History) × (H.acts before op ≡ none)) (returned o)
  Holds-returned h none e = (h, e)
  Holds-returned h (some x) e = tt

  pub Returns-act : Returns (λ x. (before : History) × (H.acts before op ≡ none)) (act H op)
  unfolding act
  Returns-act = record { at = λ h. Holds-returned h (H.acts h op) refl }

pub ruleset returns_rules = (
  Returns-pure, Returns-fail, Returns-if, Returns-ensure, Returns-bind, Returns-on_result,
  Returns-on_option,
)
