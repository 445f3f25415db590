-- ===== src/Host/Success.antt =====
-- Bounds on the calls of an action that succeeds: a clean-up that runs on failure does not count.
use accelerated_container_im.Base.{◌≡◌, refl, Bool, arith}
use accelerated_container_im.Host.{Op, History}
use accelerated_container_im.Host.Types.{Result, ok, err}
use accelerated_container_im.Host.Exec.{Exec, on_error, ◌>>=◌, after_error, continue}
use accelerated_container_im.Host.Trace.{Extends, Emits, Extends-trans}

-- If `m` succeeds, every call that it made passes `q`.
pub record Succeeds {ℓ} {A : Type ℓ} (q : Op → Bool) (m : Exec A) : Type ℓ where
  pub at : (h : History) (a : A) → (m h).0 ≡ ok a → Extends q h (m h).1

module _ {ℓ} {A : Type ℓ} {q : Op → Bool} where
  pub Succeeds-Emits : {m : Exec A} → Emits q m → Succeeds q m
  Succeeds-Emits k = record { at = λ h a e. k.at h }

  after_error-ok :
      (c : Exec (Unit {0})) (h h' : History) (r : Result A) (a : A)
      → ((b : A) → r ≡ ok b → Extends q h h')
      → (after_error r c h').0 ≡ ok a
      → Extends q h (after_error r c h').1
  after_error-ok c h h' (ok b) a x e = x b refl
  after_error-ok c h h' (err b) a x e = absurd (ground (arith, e))

  pub Succeeds-on_error :
      (c : Exec (Unit {0})) {m : Exec A} → Succeeds q m → Succeeds q (on_error c m)
  unfolding on_error
  Succeeds-on_error c {m} k = record {
    at = λ h a e. let (r, h') = m h in after_error-ok c h h' r a (k.at h) e;
  }

module _ {ℓ κ} {A : Type ℓ} {B : Type κ} {q : Op → Bool} where
  continue-ok :
      (f : A → Exec B) (h h' : History) (r : Result A) (b : B)
      → ((a : A) → r ≡ ok a → Extends q h h')
      → ((a : A) → Succeeds q (f a))
      → (continue r f h').0 ≡ ok b
      → Extends q h (continue r f h').1
  continue-ok f h h' (ok a) b x k e = Extends-trans (x a refl) ((k a).at h' b e)
  continue-ok f h h' (err x') b x k e = absurd (ground (arith, e))

  pub Succeeds-bind :
      {m : Exec A} {f : A → Exec B}
      → Succeeds q m
      → ((a : A) → Succeeds q (f a))
      → Succeeds q (m >>= f)
  unfolding ◌>>=◌
  Succeeds-bind {m} {f} km kf = record {
    at = λ h b e. let (r, h') = m h in continue-ok f h h' r b (km.at h) kf e;
  }
