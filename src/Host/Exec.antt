-- ===== src/Host/Exec.antt =====
-- Go functions that make calls and may return an error: they extend the history of calls.
use accelerated_container_im.Base.{Bool, Option, none, some, ◌∷◌, if◌then◌else◌}
use accelerated_container_im.Host.{Op, History, Host}
use accelerated_container_im.Host.Types.{Error, Result, ok, err}

abbrev pub Exec {ℓ} : Type ℓ → Type ℓ
Exec A = History → Result A × History

abbrev pub returned : Option Error → Result (Unit {0})
returned none = ok tt
returned (some e) = err e

module _ (H : Host) where
  -- A call that only succeeds or fails.
  unfoldable pub act : Op → Exec (Unit {0})
  act op h = (returned (H.acts h op), op ∷ h)

-- A call that answers with a value; `answer` is the field of the host for its type.
unfoldable pub ask {ℓ} : {A : Type ℓ} → (History → Op → Result A) → Op → Exec A
ask answer op h = (answer h op, op ∷ h)

module _ {ℓ} {A : Type ℓ} where
  unfoldable pub pure : A → Exec A
  pure a h = (ok a, h)

  unfoldable pub fail : Error → Exec A
  fail e h = (err e, h)

  abbrev pub after_error : Result A → Exec (Unit {0}) → Exec A
  after_error (ok a) c h = (ok a, h)
  after_error (err e) c h = (err e, (c h).1)

  -- `defer func() { if retErr != nil { c } }()` in front of `m`; what `c` returns is only logged.
  unfoldable pub on_error : Exec (Unit {0}) → Exec A → Exec A
  on_error c m h = let (r, h') = m h in after_error r c h'

  -- `defer c` in front of `m`.
  unfoldable pub ensure : Exec (Unit {0}) → Exec A → Exec A
  ensure c m h = let (r, h') = m h in (r, (c h').1)

  -- `r, err := m`, where the caller looks at the error itself.
  unfoldable pub attempt : Exec A → Exec (Result A)
  attempt m h = let (r, h') = m h in (ok r, h')

  -- `m`, where an error is dropped or only logged.
  unfoldable pub ignore : Exec A → Exec (Unit {0})
  ignore m h = let (r, h') = m h in (ok tt, h')

-- `if b { m }`
unfoldable pub when : Bool → Exec (Unit {0}) → Exec (Unit {0})
unfolding pure
when b m = if b then m else pure tt

module _ {ℓ κ} {A : Type ℓ} {B : Type κ} where
  -- `if err != nil { g } else { f }` on a result at hand.
  unfoldable pub on_result : Result A → (A → Exec B) → (Error → Exec B) → Exec B
  on_result (ok a) f g = f a
  on_result (err e) f g = g e

  -- `if v, ok := ...; ok { f } else { m }`
  unfoldable pub on_option : Option A → (A → Exec B) → Exec B → Exec B
  on_option (some a) f m = f a
  on_option none f m = m

-- Opening this opens the other actions too.
module _ {ℓ κ} {A : Type ℓ} {B : Type κ} where
  abbrev pub continue : Result A → (A → Exec B) → Exec B
  continue (ok a) f h = f a h
  continue (err e) f h = (err e, h)

  infixl 10 ◌>>=◌
  unfoldable pub ◌>>=◌ : Exec A → (A → Exec B) → Exec B
  unfolding act ask pure fail on_error ensure attempt ignore on_result on_option when
  ◌>>=◌ m f h = let (r, h') = m h in continue r f h'

infixl 10 ◌>>◌
abbrev pub ◌>>◌ {ℓ κ} : {A : Type ℓ} {B : Type κ} → Exec A → Exec B → Exec B
m >> n = m >>= λ _. n
