-- ===== src/Store/Layers/Snapshots.antt =====
-- When the calls of an action leave no snapshot behind that is neither committed nor removed
-- (pkg/convertor/convertor.go).
use accelerated_container_im.Base.{◌≡◌, String, true, Option, none, some, List, ◌∷◌}
use accelerated_container_im.Base.Dict.{Dict}
use accelerated_container_im.Host.{Op, History, Host, sn_prepare, sn_remove, sn_commit}
use accelerated_container_im.Host.Exec.{Exec, ◌>>=◌, continue, on_option}
use accelerated_container_im.Host.Trace.{Extends, same, more, Emits}
use accelerated_container_im.Host.Types.{Error, Result, ok, err}
use accelerated_container_im.Store.Apply.Rollback.{
  is_plain, NoneHeld, at_start, plain, refused, Held, prepared, worked,
}

module _ (H : Host) (start : History) where
  mutual
    -- Since `start` every snapshot that was prepared was committed or removed before another call on
    -- the snapshots was made.
    pub data Tidy : History → Type 0 where
      begun : Tidy start
      passed : {h : History} (op : Op) → is_plain op ≡ true → Tidy h → Tidy (op ∷ h)
      declined :
          {h : History} (key parent : String) (labels : Dict String) (e : Error)
          → H.names h (sn_prepare key parent labels) ≡ err e
          → Tidy h
          → Tidy (sn_prepare key parent labels ∷ h)
      committed :
          {h : History} (id key : String) (labels : Dict String)
          → H.acts h (sn_commit id key labels) ≡ none
          → Pending key h
          → Tidy (sn_commit id key labels ∷ h)
      removed : {h : History} (key : String) → Pending key h → Tidy (sn_remove key ∷ h)

    -- The same, but for the snapshot `key`.
    pub data Pending : String → History → Type 0 where
      taken :
          {h : History} (key parent : String) (labels : Dict String) (mounts : List String)
          → H.names h (sn_prepare key parent labels) ≡ ok mounts
          → Tidy h
          → Pending key (sn_prepare key parent labels ∷ h)
      kept :
          {key : String} {h : History} (op : Op)
          → is_plain op ≡ true
          → Pending key h
          → Pending key (op ∷ h)
      not_committed :
          {h : History} (id key : String) (labels : Dict String) (e : Error)
          → H.acts h (sn_commit id key labels) ≡ some e
          → Pending key h
          → Pending key (sn_commit id key labels ∷ h)

  pub Extends-Tidy : {h h' : History} → Extends is_plain h h' → Tidy h → Tidy h'
  Extends-Tidy same t = t
  Extends-Tidy (more op p x) t = passed op p (Extends-Tidy x t)

  pub NoneHeld-Tidy :
      (parent : String) (labels : Dict String) (from : History) {h : History}
      → Tidy from
      → NoneHeld H parent labels from h
      → Tidy h
  NoneHeld-Tidy parent labels from t at_start = t
  NoneHeld-Tidy parent labels from t (plain op p n) = passed op p (NoneHeld-Tidy _ _ _ t n)
  NoneHeld-Tidy parent labels from t (refused key e x n) =
      declined key parent labels e x (NoneHeld-Tidy _ _ _ t n)

  pub Held-Pending :
      (parent : String) (labels : Dict String) (from : History) (key : String) {h : History}
      → Tidy from
      → Held H parent labels from key h
      → Pending key h
  Held-Pending parent labels from key t (prepared mounts x n) =
      taken key parent labels mounts x (NoneHeld-Tidy _ _ _ t n)
  Held-Pending parent labels from key t (worked op p n) = kept op p (Held-Pending _ _ _ _ t n)

-- `m` keeps the snapshotter tidy, whatever the host answers and whether `m` fails or not.
pub record Tidies {ℓ} {A : Type ℓ} (H : Host) (start : History) (m : Exec A) : Type ℓ where
  pub at : (h : History) → Tidy H start h → Tidy H start (m h).1

module _ {H : Host} {start : History} where
  pub Tidies-plain {ℓ} : {A : Type ℓ} {m : Exec A} → Emits is_plain m → Tidies H start m
  Tidies-plain k = record { at = λ h t. Extends-Tidy H start (k.at h) t }

  module _ {ℓ κ} {A : Type ℓ} {B : Type κ} where
    continue-Tidy :
        (r : Result A) (f : A → Exec B) (h : History)
        → ((a : A) → Tidies H start (f a))
        → Tidy H start h
        → Tidy H start (continue r f h).1
    continue-Tidy (ok a) f h k t = (k a).at h t
    continue-Tidy (err e) f h k t = t

    pub Tidies-bind :
        {m : Exec A} {f : A → Exec B}
        → Tidies H start m
        → ((a : A) → Tidies H start (f a))
        → Tidies H start (m >>= f)
    unfolding ◌>>=◌
    Tidies-bind {m} {f} km kf = record {
      at = λ h t. continue-Tidy (m h).0 f (m h).1 kf (km.at h t);
    }

    pub Tidies-on_option :
        (o : Option A) {f : A → Exec B} {m : Exec B}
        → ((a : A) → Tidies H start (f a))
        → Tidies H start m
        → Tidies H start (on_option o f m)
    unfolding on_option
    Tidies-on_option (some a) kf km = kf a
    Tidies-on_option none kf km = km
