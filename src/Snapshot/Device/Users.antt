-- ===== src/Snapshot/Device/Users.antt =====
-- checkIsParent (storage.go) against a description of a parent that is in use.
use accelerated_container_im.Base.{
  ◌≡◌, ◌≢◌, refl, ap, ◌∙◌, not, ◌&&◌, ◌↔◌, inl, inr, Bool, true, String, List, [], ◌∷◌, ◌++◌, arith,
  ◌==◌, string_eq, Bool-cases,
}
use accelerated_container_im.Host.Types.{Info, Kind, active, view, committed}
use accelerated_container_im.Snapshot.Device.Detach.{is_running, has_child}

-- `i` is an active snapshot or a view on `key`, other than `exclude`.
abbrev pub Uses : String → String → Info → Type 0
Uses key exclude i = (i.name ≢ exclude) × (i.parent ≡ key) × (i.kind ≢ committed)

abbrev pub HasUser : String → String → List Info → Type 0
HasUser key exclude infos =
    (before : List Info) × (i : Info) × (after : List Info) × (infos ≡ before ++ (i ∷ after))
    × Uses key exclude i

running : (k : Kind) → (is_running k ≡ true) ↔ (k ≢ committed)
running active = (λ e. λ p. absurd (ground (arith, p)), λ n. refl)
running view = (λ e. λ p. absurd (ground (arith, p)), λ n. refl)
running committed = (λ e. absurd (ground (arith, e)), λ n. absurd (n refl))

-- What the walk asks of one snapshot.
abbrev counts : String → String → Info → Bool
counts key exclude i = not (i.name == exclude) && (i.parent == key && is_running i.kind)

counts_sound : (key exclude : String) (i : Info) → counts key exclude i ≡ true → Uses key exclude i
counts_sound key exclude i e =
    (ground (arith, e), ground (arith, e), (running i.kind).0 (ground (arith, e)))

counts_complete :
    (key exclude : String) (i : Info) → Uses key exclude i → counts key exclude i ≡ true
counts_complete key exclude i (n, p, k) = ground (arith, n, p, (running i.kind).1 k)

HasUser-cons :
    (key exclude : String) (i : Info) (is : List Info)
    → HasUser key exclude is
    → HasUser key exclude (i ∷ is)
HasUser-cons key exclude i is (before, j, after, p, u) = (i ∷ before, j, after, cc p, u)

sound :
    (key exclude : String) (is : List Info)
    → has_child key exclude is ≡ true
    → HasUser key exclude is
unfolding has_child
sound key exclude [] e = absurd (ground (arith, e))
sound key exclude (i ∷ is) e = elim (Bool-cases (counts key exclude i)) [
  | inl t ↦ ([], i, is, refl, counts_sound key exclude i t)
  | inr f ↦ HasUser-cons key exclude i is (sound key exclude is (ground (arith, e, f)))
]

complete :
    (key exclude : String) (before : List Info) (i : Info) (after : List Info)
    → Uses key exclude i
    → has_child key exclude (before ++ (i ∷ after)) ≡ true
unfolding has_child
complete key exclude [] i after u = ground (arith, counts_complete key exclude i u)
complete key exclude (j ∷ before) i after u = ground (arith, complete key exclude before i after u)

-- The walk over all snapshots finds a child exactly if some active snapshot or view, whose name is
-- not the one to leave out, has `key` as its parent.
pub has_child_iff :
    (key exclude : String) (infos : List Info)
    → (has_child key exclude infos ≡ true) ↔ HasUser key exclude infos
has_child_iff key exclude infos = (
  sound key exclude infos,
  λ (before, i, after, p, u). ap (has_child key exclude) p ∙ complete key exclude before i after u,
)
