-- ===== src/Host/Trace.antt =====
-- Which calls an action may add to the history: a rule for each way to build an action, so that
-- `search` proves a bound on the calls of a whole function by walking its `do` block.
use accelerated_container_im.Base.{
  ◌≡◌, refl, Bool, true, false, Option, none, some, ◌∷◌, if◌then◌else◌,
}
use accelerated_container_im.Host.{Op, History, Host}
use accelerated_container_im.Host.Types.{Error, Result, ok, err}
use accelerated_container_im.Host.Exec.{
  Exec, act, ask, pure, fail, on_error, ensure, attempt, ignore, ◌>>=◌, when, after_error, continue,
  on_result, on_option,
}

-- `Extends q h h'`: the calls of `h'` that `h` lacks all pass the test `q`.
pub data Extends (q : Op → Bool) (h : History) : History → Type 0 where
  same : Extends q h h
  more : {h' : History} (op : Op) → q op ≡ true → Extends q h h' → Extends q h (op ∷ h')

module _ {q : Op → Bool} where
  pub Extends-trans : {a b c : History} → Extends q a b → Extends q b c → Extends q a c
  Extends-trans x same = x
  Extends-trans x (more op p y) = more op p (Extends-trans x y)

-- Every call that `m` makes passes `q`, whatever the host answers and whether `m` fails or not.
pub record Emits {ℓ} {A : Type ℓ} (q : Op → Bool) (m : Exec A) : Type ℓ where
  pub at : (h : History) → Extends q h (m h).1

module _ {p q : Op → Bool} (imp : (op : Op) → p op ≡ true → q op ≡ true) where
  pub Extends-weaken : {a b : History} → Extends p a b → Extends q a b
  Extends-weaken same = same
  Extends-weaken (more op e x) = more op (imp op e) (Extends-weaken x)

  pub Emits-weaken {ℓ} : {A : Type ℓ} {m : Exec A} → Emits p m → Emits q m
  Emits-weaken k = record { at = λ h. Extends-weaken (k.at h) }

module _ {q : Op → Bool} where
  pub Emits-act : (H : Host) (op : Op) → q op ≡ true → Emits q (act H op)
  unfolding act
  Emits-act H op p = record { at = λ h. more op p same }

  pub Emits-ask {ℓ} :
      {A : Type ℓ} (f : History → Op → Result A) (op : Op) → q op ≡ true → Emits q (ask f op)
  unfolding ask
  Emits-ask f op p = record { at = λ h. more op p same }

  pub Emits-pure {ℓ} : {A : Type ℓ} (a : A) → Emits q (pure a)
  unfolding pure
  Emits-pure a = record { at = λ h. same }

  pub Emits-fail {ℓ} : {A : Type ℓ} (e : Error) → Emits q (fail {A = A} e)
  unfolding fail
  Emits-fail e = record { at = λ h. same }

  pub Emits-if {ℓ} :
      {A : Type ℓ} (b : Bool) {m n : Exec A} → Emits q m → Emits q n → Emits q (if b then m else n)
  Emits-if true m n = m
  Emits-if false m n = n

  pub Emits-when : (b : Bool) {m : Exec Unit} → Emits q m → Emits q (when b m)
  unfolding when
  Emits-when b m = Emits-if b m (Emits-pure tt)

module _ {ℓ} {A : Type ℓ} {q : Op → Bool} {m : Exec A} (km : Emits q m) where
  pub Emits-attempt : Emits q (attempt m)
  unfolding attempt
  Emits-attempt = record { at = λ h. km.at h }

  pub Emits-ignore : Emits q (ignore m)
  unfolding ignore
  Emits-ignore = record { at = λ h. km.at h }

  module _ {c : Exec Unit} (kc : Emits q c) where
    pub Emits-ensure : Emits q (ensure c m)
    unfolding ensure
    Emits-ensure = record { at = λ h. Extends-trans (km.at h) (kc.at (m h).1) }

    after_error-Extends :
        (r : Result A) (h h' : History) → Extends q h h' → Extends q h (after_error r c h').1
    after_error-Extends (ok a) h h' x = x
    after_error-Extends (err e) h h' x = Extends-trans x (kc.at h')

    pub Emits-on_error : Emits q (on_error c m)
    unfolding on_error
    Emits-on_error = record { at = λ h. let (r, h') = m h in after_error-Extends r h h' (km.at h) }

module _ {ℓ κ} {A : Type ℓ} {B : Type κ} {q : Op → Bool} where
  continue-Extends :
      (r : Result A) {f : A → Exec B} (h h' : History)
      → ((a : A) → Emits q (f a))
      → Extends q h h'
      → Extends q h (continue r f h').1
  continue-Extends (ok a) h h' kf x = Extends-trans x ((kf a).at h')
  continue-Extends (err e) h h' kf x = x

  pub Emits-bind :
      {m : Exec A} {f : A → Exec B} → Emits q m → ((a : A) → Emits q (f a)) → Emits q (m >>= f)
  unfolding ◌>>=◌
  Emits-bind {m} km kf = record {
    at = λ h. let (r, h') = m h in continue-Extends r h h' kf (km.at h);
  }

module _ {ℓ κ} {A : Type ℓ} {B : Type κ} {q : Op → Bool} where
  pub Emits-on_result :
      (r : Result A) {f : A → Exec B} {g : Error → Exec B}
      → ((a : A) → Emits q (f a))
      → ((e : Error) → Emits q (g e))
      → Emits q (on_result r f g)
  unfolding on_result
  Emits-on_result (ok a) kf kg = kf a
  Emits-on_result (err e) kf kg = kg e

  pub Emits-on_option :
      (o : Option A) {f : A → Exec B} {m : Exec B}
      → ((a : A) → Emits q (f a))
      → Emits q m
      → Emits q (on_option o f m)
  unfolding on_option
  Emits-on_option (some a) kf km = kf a
  Emits-on_option none kf km = km

pub ruleset emits_rules = (
  Emits-act, Emits-ask, Emits-pure, Emits-fail, Emits-if, Emits-when, Emits-attempt, Emits-ignore,
  Emits-ensure, Emits-on_error, Emits-on_result, Emits-on_option, Emits-bind, refl,
)
