-- ===== src/Snapshot/Mapping/Entries.antt =====
-- rootIDFromMapping's loop (overlay.go) against a description of the entry that decides.
use accelerated_container_im.Base.{
  ℕ, suc, ◌+◌, ◌-◌, ◌&&◌, ◌≡◌, refl, sym, ap, ◌∙◌, ◌↔◌, true, some, List, [], ◌∷◌, ◌++◌, arith,
  Bool-cases, inl, inr,
}
use accelerated_container_im.Base.Int.{ℤ, pos, negsuc, neg_part, ◌+ℤ◌, ◌-ℤ◌, leb_ℤ, ltb_ℤ, wrap}
use accelerated_container_im.Base.Lists.{All, both}
use accelerated_container_im.Snapshot.Mapping.{
  Entry, numbers, passed_over, bad, covers_root, root_of_entries,
}

-- The entry maps the container's IDs from `c` on, `size` of them, to the IDs from `h` on, and the
-- container's ID 0 is the one that is `k` behind `c`.
abbrev pub MapsZero : ℕ → ℤ → ℤ → Type 0
MapsZero k c size = (c +ℤ pos k ≡ pos 0) × ((more : ℕ) × (size ≡ pos (k + suc more)))

-- An entry whose range does not have the container's ID 0.
abbrev pub Skipped : Entry → Type 0
Skipped (numbers c h size) = (k : ℕ) → ¬ MapsZero k c size
Skipped passed_over = Unit
Skipped bad = ⊥

abbrev pub AllSkipped : List Entry → Type 0
AllSkipped [] = Unit
AllSkipped (e ∷ es) = Skipped e × AllSkipped es

-- The range of an entry, and the IDs that it maps to, are within 64 bits.
abbrev pub Fits : Entry → Type 0
Fits (numbers c h size) =
    (wrap (c +ℤ size) ≡ c +ℤ size) × (wrap (h +ℤ (pos 0 -ℤ c)) ≡ h +ℤ (pos 0 -ℤ c))
Fits e = Unit

-- Some entry of `es` has the container's ID 0, those before it do not, and it maps it to `r`.
abbrev pub MapsRoot : List Entry → ℤ → Type 0
MapsRoot es r =
    (before : List Entry) × (after : List Entry) × (c : ℤ) × (h : ℤ) × (size : ℤ) × (k : ℕ) × (es
      ≡ before ++ (numbers c h size ∷ after))
    × AllSkipped before
    × MapsZero k c size
    × (r ≡ h +ℤ pos k)

MapsRoot-cons :
    (e : Entry) {es : List Entry} {r : ℤ} → Skipped e → MapsRoot es r → MapsRoot (e ∷ es) r
MapsRoot-cons e s (before, after, c, h, size, k, p, sk, m, q) =
    (e ∷ before, after, c, h, size, k, cc p, (s, sk), m, q)

-- Whether a range that is within 64 bits has 0.
covers-MapsZero :
    (c size : ℤ)
    → (leb_ℤ c (pos 0) && ltb_ℤ (pos 0) (c +ℤ size)) ≡ true
    → MapsZero (neg_part c) c size
unfolding ◌+ℤ◌
covers-MapsZero (pos n) (pos s) e = (ground (arith, e), (s - 1, ap pos (ground (arith, e))))
covers-MapsZero (negsuc n) (pos s) e = (ground arith, (s - n - 2, ap pos (ground (arith, e))))
covers-MapsZero (pos n) (negsuc s) e = absurd (ground (arith, e))
covers-MapsZero (negsuc n) (negsuc s) e = absurd (ground (arith, e))

MapsZero-covers :
    (k : ℕ) (c : ℤ) (more : ℕ)
    → c +ℤ pos k ≡ pos 0
    → ((leb_ℤ c (pos 0) && ltb_ℤ (pos 0) (c +ℤ pos (k + suc more))) ≡ true) × (pos 0 -ℤ c ≡ pos k)
unfolding ◌+ℤ◌ ◌-ℤ◌
MapsZero-covers k (pos n) more e = ground (arith, e)
MapsZero-covers k (negsuc n) more e = ground (arith, e)

numbers-MapsZero :
    (c h size : ℤ)
    → Fits (numbers c h size)
    → covers_root c size ≡ true
    → MapsZero (neg_part c) c size × (wrap (h +ℤ (pos 0 -ℤ c)) ≡ h +ℤ pos (neg_part c))
numbers-MapsZero c h size (w, v) e =
    let m = covers-MapsZero c size (rw⁻¹ w e) in
    (m, v ∙ ap (λ x. h +ℤ x) (MapsZero-covers _ c 0 m.0).1)

numbers-covers :
    (k : ℕ) (c h size : ℤ)
    → Fits (numbers c h size)
    → MapsZero k c size
    → (covers_root c size ≡ true) × (wrap (h +ℤ (pos 0 -ℤ c)) ≡ h +ℤ pos k)
numbers-covers k c h size (w, v) (z, (more, q)) =
    let (covered, gap) = MapsZero-covers k c more z in
    (rw w (rw q covered), v ∙ ap (λ x. h +ℤ x) gap)

sound : (es : List Entry) (r : ℤ) → All Fits es → root_of_entries es ≡ some r → MapsRoot es r
unfolding root_of_entries
sound [] r a e = absurd (ground (arith, e))
sound (bad ∷ es) r a e = absurd (ground (arith, e))
sound (passed_over ∷ es) r (both f a) e = MapsRoot-cons passed_over tt (sound es r a e)
sound (numbers c h size ∷ es) r (both f a) e = elim (Bool-cases (covers_root c size)) [
  | inl t ↦
      let (m, v) = numbers-MapsZero c h size f t in
      ([], es, c, h, size, neg_part c, refl, tt, m, sym (ground (arith, e, t)) ∙ v)
  | inr n ↦
      MapsRoot-cons (numbers c h size) (λ k m. absurd (cc (n, (numbers-covers k c h size f m).0)))
        (sound es r a (ground (arith, e, n)))
]

complete :
    (before after : List Entry) (c h size : ℤ) (k : ℕ)
    → All Fits (before ++ (numbers c h size ∷ after))
    → AllSkipped before
    → MapsZero k c size
    → root_of_entries (before ++ (numbers c h size ∷ after)) ≡ some (h +ℤ pos k)
unfolding root_of_entries
complete [] after c h size k (both f a) sk m =
    let (covered, v) = numbers-covers k c h size f m in rw covered (ap some v)
complete (bad ∷ es) after c h size k a (s, sk) m = absurd s
complete (passed_over ∷ es) after c h size k (both f a) (s, sk) m =
    complete es after c h size k a sk m
complete (numbers c' h' size' ∷ es) after c h size k (both f a) (s, sk) m =
    elim (Bool-cases (covers_root c' size')) [
      | inl t ↦ absurd (s _ (numbers-MapsZero c' h' size' f t).0)
      | inr n ↦ rw n (complete es after c h size k a sk m)
    ]

-- If the ranges of a mapping's entries are within 64 bits, the loop over them returns `r` exactly if
-- some entry's range has the container's ID 0, as the ID `k` behind its start, no entry before it has 0
-- in its range or has a bad number, and `r` is the ID `k` behind the start of the range that the entry
-- maps to.
pub root_of_entries_iff :
    (es : List Entry) (r : ℤ) → All Fits es → (root_of_entries es ≡ some r) ↔ MapsRoot es r
root_of_entries_iff es r fits = (
  sound es r fits,
  λ (before, after, c, h, size, k, p, sk, m, q).
      ap root_of_entries p ∙ complete before after c h size k (rw p at fits) sk m ∙ ap some (sym q),
)
