-- ===== src/Snapshot/MountTable.antt =====
-- The reading of /proc/self/mountinfo (storage.go): parseAndCheckMounted, with the matchers of
-- checkOverlaybdInUse and isMounted. The input is the list of lines that the scanner gives.
pub mod Matches
use accelerated_container_im.Base.{
  ℕ, ◌+◌, suc, String, Bool, true, false, ◌&&◌, Option, none, some, List, [], ◌∷◌, ltb, ◌==◌,
  string_eq, if◌then◌else◌,
}
use accelerated_container_im.Base.Lists.{length, drop, get_elem?}
use accelerated_container_im.Base.Text.{split, contains_text}

-- The loop over the optional fields: the index of the first separator, where `i` is the index of the
-- first field given.
unfoldable pub separator_from : ℕ → List String → Option ℕ
unfolding string_eq
separator_from i [] = none
separator_from i (f ∷ fs) =
    let rest = separator_from (suc i) fs in if f == "-" then some i else rest

-- Too few fields behind the separator are passed over.
unfoldable pub with_room : ℕ → Option ℕ → Option ℕ
with_room num none = none
with_room num (some i) = if ltb num (i + 4) then none else some i

-- The index of the separator of a line that is considered.
unfoldable pub separator_of : List String → Option ℕ
unfolding with_room separator_from
separator_of fields =
    if ltb (length fields) 10
    then none
    else with_room (length fields) (separator_from 6 (drop 6 fields))

unfoldable pub line_matches : (List String → ℕ → Bool) → List String → Option ℕ → Bool
line_matches matcher fields none = false
line_matches matcher fields (some i) = matcher fields i

-- parseAndCheckMounted
unfoldable pub check_mounted : (List String → ℕ → Bool) → List String → Bool
unfolding line_matches separator_of split
check_mounted matcher [] = false
check_mounted matcher (text ∷ lines) =
    let rest = check_mounted matcher lines in
    let fields = split b' ' text in
    if line_matches matcher fields (separator_of fields) then true else rest

-- `fields[i] == s`, which is asked of an index in range
abbrev pub field_is : (String → Bool) → List String → ℕ → Bool
field_is test fields i = elim (get_elem? fields i) [ some f ↦ test f | none ↦ false ]

-- The matcher of checkOverlaybdInUse
unfoldable pub uses_overlay : String → List String → ℕ → Bool
unfolding string_eq contains_text
uses_overlay dir fields i =
    field_is (λ f. f == "overlay") fields (i + 1)
    && field_is (λ f. contains_text f dir) fields (i + 3)

-- The matcher of isMounted; `clean` is the standard library's path.Clean.
unfoldable pub mounted_at : (String → String) → String → List String → ℕ → Bool
unfolding string_eq
mounted_at clean mountpoint fields i = field_is (λ f. clean mountpoint == clean f) fields 4
