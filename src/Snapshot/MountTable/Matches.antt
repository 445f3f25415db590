-- ===== src/Snapshot/MountTable/Matches.antt =====
-- The lines of the mount table that a matcher is asked about, and what the answer means.
use accelerated_container_im.Base.{
  ℕ, ◌+◌, suc, zero, ◌<◌, ◌≤◌, ◌≡◌, refl, ap, ◌∙◌, ◌↔◌, inl, inr, String, Bool, true, Option, none,
  some, List, [], ◌∷◌, ◌++◌, ltb, arith, ◌==◌, string_eq, Bool-cases,
}
use accelerated_container_im.Base.Lists.{length, drop, get_elem?}
use accelerated_container_im.Base.Text.{split}
use accelerated_container_im.Snapshot.MountTable.{
  separator_from, with_room, separator_of, line_matches, check_mounted,
}

-- A line whose fields have a separator at `i`, with three fields behind it.
abbrev pub Separated : List String → ℕ → Type 0
Separated fields i =
    (get_elem? fields i ≡ some "-") × (6 ≤ i) × (10 ≤ length fields) × (i + 3 < length fields)

from_sound :
    (k : ℕ) (fs : List String) (i : ℕ)
    → separator_from k fs ≡ some i
    → (j : ℕ) × (i ≡ k + j) × (get_elem? fs j ≡ some "-")
unfolding separator_from
from_sound k [] i e = absurd (ground (arith, e))
from_sound k (f ∷ fs) i e = elim (Bool-cases (f == "-")) [
  | inl t ↦ (0, ground (arith, e, t), ground (arith, t))
  | inr n ↦
      let (j, p, q) = from_sound (suc k) fs i (ground (arith, e, n)) in (suc j, omega (arith, p), q)
]

get_drop :
    (n j : ℕ) (xs : List String) (x : String)
    → get_elem? (drop n xs) j ≡ some x
    → get_elem? xs (n + j) ≡ some x
get_drop zero j xs x e = ap (get_elem? xs) (omega arith) ∙ e
get_drop (suc n) j [] x e = absurd (ground (arith, e))
get_drop (suc n) j (y ∷ xs) x e =
    (let p : suc n + j ≡ suc (n + j) = omega arith in ap (get_elem? (y ∷ xs)) p)
    ∙ get_drop n j xs x e

room_sound :
    (num : ℕ) (s : Option ℕ) (i : ℕ) → with_room num s ≡ some i → (s ≡ some i) × (i + 3 < num)
unfolding with_room
room_sound num none i e = absurd (ground (arith, e))
room_sound num (some k) i e = (ground (arith, e), ground (arith, e))

-- A matcher is only asked of a line where the fields that it reads are there: at the index given
-- stands the separator, behind the six fields before it, and three fields follow.
pub separator_of-Separated :
    (fields : List String) (i : ℕ) → separator_of fields ≡ some i → Separated fields i
unfolding separator_of
separator_of-Separated fields i e = elim (Bool-cases (ltb (length fields) 10)) [
  | inl t ↦ absurd (ground (arith, e, t))
  | inr f ↦
      let (p, r) =
        room_sound (length fields) (separator_from 6 (drop 6 fields)) i (ground (arith, e, f)) in
      let (j, q, g) = from_sound 6 (drop 6 fields) i p in
      (ap (get_elem? fields) q ∙ get_drop 6 j fields "-" g, omega (arith, q), ground (arith, f), r)
]

-- Some line of the table has a separator where `matcher` holds.
abbrev pub HasMatch : (List String → ℕ → Bool) → List String → Type 0
HasMatch matcher lines =
    (before : List String) × (text : String) × (after : List String) × (i : ℕ) × (lines
      ≡ before ++ (text ∷ after))
    × (separator_of (split b' ' text) ≡ some i)
    × (matcher (split b' ' text) i ≡ true)

module _ (matcher : List String → ℕ → Bool) where
  HasMatch-cons :
      (l : String) (lines : List String) → HasMatch matcher lines → HasMatch matcher (l ∷ lines)
  HasMatch-cons l lines (before, text, after, i, p, s, m) = (l ∷ before, text, after, i, cc p, s, m)

  line_sound :
      (fields : List String) (s : Option ℕ)
      → line_matches matcher fields s ≡ true
      → (i : ℕ) × (s ≡ some i) × (matcher fields i ≡ true)
  unfolding line_matches
  line_sound fields none e = absurd (ground (arith, e))
  line_sound fields (some i) e = (i, refl, e)

  sound : (lines : List String) → check_mounted matcher lines ≡ true → HasMatch matcher lines
  unfolding check_mounted
  sound [] e = absurd (ground (arith, e))
  sound (text ∷ lines) e =
      let fields = split b' ' text in
      elim (Bool-cases (line_matches matcher fields (separator_of fields))) [
        | inl t ↦
            let (i, p, m) = line_sound fields (separator_of fields) t in
            ([], text, lines, i, refl, p, m)
        | inr f ↦ HasMatch-cons text lines (sound lines (ground (arith, e, f)))
      ]

  line_complete :
      (fields : List String) (s : Option ℕ) (i : ℕ)
      → s ≡ some i
      → matcher fields i ≡ true
      → line_matches matcher fields s ≡ true
  unfolding line_matches
  line_complete fields none i p m = absurd (ground (arith, p))
  line_complete fields (some k) i p m =
      (let q : k ≡ i = ground (arith, p) in ap (matcher fields) q) ∙ m

  complete :
      (before : List String) (text : String) (after : List String) (i : ℕ)
      → separator_of (split b' ' text) ≡ some i
      → matcher (split b' ' text) i ≡ true
      → check_mounted matcher (before ++ (text ∷ after)) ≡ true
  unfolding check_mounted
  complete [] text after i p m =
      ground (arith, line_complete (split b' ' text) (separator_of (split b' ' text)) i p m)
  complete (l ∷ before) text after i p m = ground (arith, complete before text after i p m)

  -- The table is found to have a match exactly if some line of it, wherever it stands and whatever
  -- the lines before it are, has a separator where the matcher holds.
  pub check_mounted_iff :
      (lines : List String) → (check_mounted matcher lines ≡ true) ↔ HasMatch matcher lines
  check_mounted_iff lines = (
    sound lines,
    λ (before, text, after, i, p, s, m).
        ap (check_mounted matcher) p ∙ complete before text after i s m,
  )
