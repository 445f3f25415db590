-- ===== src/Snapshot/Remove/Directories.antt =====
-- getCleanupDirectories (overlay.go) against a description of a directory without a snapshot.
use accelerated_container_im.Base.{
  ◌≡◌, refl, sym, ap, ◌∙◌, ◌↔◌, ◌⊎◌, inl, inr, String, ◌<>◌, Bool, true, false, List, [], ◌∷◌,
  if◌then◌else◌, contains, string_eq, arith,
}
use accelerated_container_im.Snapshot.Remove.{dead_dirs}

abbrev pub Occurs : String → List String → Type 0
Occurs s [] = true ≡ false
Occurs s (x ∷ xs) = (s ≡ x) ⊎ Occurs s xs

-- `p` is the path of a directory that was read and whose name is no ID of a snapshot.
abbrev pub Dead : String → List String → List String → String → Type 0
Dead dir ids names p =
    (name : String) × Occurs name names × (contains ids name ≡ false) × (p ≡ dir <> ("/" <> name))

module _ (dir : String) (ids : List String) (p : String) where
  Dead-cons : (n : String) (names : List String) → Dead dir ids names p → Dead dir ids (n ∷ names) p
  Dead-cons n names (name, q, f, e) = (name, inr q, f, e)

  sound_if :
      (n : String) (names rest : List String) (b : Bool)
      → contains ids n ≡ b
      → (Occurs p rest → Dead dir ids names p)
      → Occurs p (if b then rest else (dir <> ("/" <> n)) ∷ rest)
      → Dead dir ids (n ∷ names) p
  sound_if n names rest true t ih q = Dead-cons n names (ih q)
  sound_if n names rest false f ih (inl e) = (n, inl refl, f, e)
  sound_if n names rest false f ih (inr q) = Dead-cons n names (ih q)

  sound : (names : List String) → Occurs p (dead_dirs dir ids names) → Dead dir ids names p
  unfolding dead_dirs
  sound [] q = absurd (ground (arith, q))
  sound (n ∷ names) q =
      sound_if n names (dead_dirs dir ids names) (contains ids n) refl (sound names) q

  here_if :
      (name n : String) (rest : List String) (b : Bool)
      → b ≡ false
      → p ≡ dir <> ("/" <> n)
      → Occurs p (if b then rest else (dir <> ("/" <> n)) ∷ rest)
  here_if name n rest true f e = absurd (ground (arith, f))
  here_if name n rest false f e = inl e

  there_if :
      (x : String) (rest : List String) (b : Bool)
      → Occurs p rest
      → Occurs p (if b then rest else x ∷ rest)
  there_if x rest true q = q
  there_if x rest false q = inr q

  complete : (names : List String) → Dead dir ids names p → Occurs p (dead_dirs dir ids names)
  unfolding dead_dirs
  complete [] (name, q, f, e) = q
  complete (n ∷ names) (name, inl s, f, e) =
      here_if name n (dead_dirs dir ids names) (contains ids n) (ap (contains ids) (sym s) ∙ f)
        (e ∙ ap (λ m. dir <> ("/" <> m)) s)
  complete (n ∷ names) (name, inr q, f, e) =
      there_if _ (dead_dirs dir ids names) (contains ids n) (complete names (name, q, f, e))

  -- The directories to clean up are exactly those that were read and whose name is not the ID of a
  -- snapshot that the store knows.
  pub dead_dirs_iff :
      (names : List String) → Occurs p (dead_dirs dir ids names) ↔ Dead dir ids names p
  dead_dirs_iff names = (sound names, complete names)
