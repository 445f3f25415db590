-- ===== src/RecordTrace/Resources.antt =====
-- The resources of a command (cmd/ctr/record_trace.go) and when they are nested.
use accelerated_container_im.Base.{
  ◌≡◌, refl, String, Bool, true, false, not, Option, none, some, [], ◌∷◌, ◌==◌, string_eq,
}
use accelerated_container_im.Host.{
  Op, History, Host, run, create, remove, with_lease, delete_lease, new_container, delete_container,
  new_task, delete_task, cni_load, cni_remove,
}
use accelerated_container_im.Host.Exec.{
  Exec, act, ensure, returned, continue, on_option, ◌>>=◌, ◌>>◌,
}
use accelerated_container_im.Host.Trace.{Extends, same, more, Emits}
use accelerated_container_im.Host.Types.{Error, Result, ok, err}

-- The resources, and what releases each.
pub data Releases : Op → Op → Type 0 where
  lease : Releases with_lease delete_lease
  network :
      (name : String)
      → Releases
          (run "ip" ("netns" ∷ "add" ∷ name ∷ []))
          (run "ip" ("netns" ∷ "delete" ∷ name ∷ []))
  interface : (name : String) → Releases cni_load (cni_remove name)
  container : (key : String) → Releases (new_container key) (delete_container key)
  task : (key : String) → Releases (new_task key) (delete_task key)
  trace_file : (path : String) → Releases (create path) (remove path)

-- A call that neither acquires nor releases one of them; a file that is removed may be another.
abbrev pub is_neutral : Op → Bool
is_neutral (run bin args) = not (bin == "ip")
is_neutral with_lease = false
is_neutral delete_lease = false
is_neutral cni_load = false
is_neutral (cni_remove _) = false
is_neutral (new_container _) = false
is_neutral (delete_container _) = false
is_neutral (new_task _) = false
is_neutral (delete_task _) = false
is_neutral (create _) = false
is_neutral _ = true

-- The calls of `h'` behind those of `h`: what is acquired is released, in the opposite order.
pub data Nested (H : Host) : History → History → Type 0 where
  nothing : {h : History} → Nested H h h
  neutral : {h h' : History} (op : Op) → is_neutral op ≡ true → Nested H h h' → Nested H h (op ∷ h')
  denied :
      {h h' : History} (op : Op) (e : Error)
      → H.acts h' op ≡ some e
      → Nested H h h'
      → Nested H h (op ∷ h')
  between :
      {h h' h'' : History} (op close : Op)
      → Releases op close
      → H.acts h' op ≡ none
      → Nested H h h'
      → Nested H (op ∷ h') h''
      → Nested H h (close ∷ h'')

module _ (H : Host) where
  Nested-trans : {a b c : History} → Nested H a b → Nested H b c → Nested H a c
  Nested-trans x nothing = x
  Nested-trans x (neutral op p y) = neutral op p (Nested-trans x y)
  Nested-trans x (denied op e p y) = denied op e p (Nested-trans x y)
  Nested-trans x (between op close r p y z) = between op close r p (Nested-trans x y) z

  Extends-Nested : {a b : History} → Extends is_neutral a b → Nested H a b
  Extends-Nested same = nothing
  Extends-Nested (more op p x) = neutral op p (Extends-Nested x)

-- `m` nests its resources, whatever the host answers and whether it fails or not.
pub record Nests {ℓ} {A : Type ℓ} (H : Host) (m : Exec A) : Type ℓ where
  pub at : (h : History) → Nested H h (m h).1

module _ {H : Host} where
  pub Nests-neutral {ℓ} : {A : Type ℓ} {m : Exec A} → Emits is_neutral m → Nests H m
  Nests-neutral k = record { at = λ h. Extends-Nested H (k.at h) }

  module _ {ℓ κ} {A : Type ℓ} {B : Type κ} where
    continue-Nested :
        (r : Result A) (f : A → Exec B) (h h' : History)
        → ((a : A) → Nests H (f a))
        → Nested H h h'
        → Nested H h (continue r f h').1
    continue-Nested (ok a) f h h' k x = Nested-trans H x ((k a).at h')
    continue-Nested (err e) f h h' k x = x

    pub Nests-bind :
        {m : Exec A} {f : A → Exec B} → Nests H m → ((a : A) → Nests H (f a)) → Nests H (m >>= f)
    unfolding ◌>>=◌
    Nests-bind {m} {f} km kf = record { at = λ h. continue-Nested (m h).0 f h (m h).1 kf (km.at h) }

    pub Nests-on_option :
        (o : Option A) {f : A → Exec B} {m : Exec B}
        → ((a : A) → Nests H (f a))
        → Nests H m
        → Nests H (on_option o f m)
    unfolding on_option
    Nests-on_option (some a) kf km = kf a
    Nests-on_option none kf km = km

  module _ {ℓ} {A : Type ℓ} where
    acquired :
        (op close : Op) (m : Exec A) (h : History) (o : Option Error)
        → Releases op close
        → H.acts h op ≡ o
        → Nests H m
        → Nested H h (continue (returned o) (λ _. ensure (act H close) m) (op ∷ h)).1
    unfolding ensure act
    acquired op close m h none r e k = between op close r e nothing (k.at (op ∷ h))
    acquired op close m h (some x) r e k = denied op x e nothing

    -- A resource around `m`.
    pub Nests-ensure :
        (op close : Op) {m : Exec A}
        → Releases op close
        → Nests H m
        → Nests H (act H op >> ensure (act H close) m)
    unfolding ◌>>=◌ act
    Nests-ensure op close {m} r k = record {
      at = λ h. acquired op close m h (H.acts h op) r refl k;
    }
