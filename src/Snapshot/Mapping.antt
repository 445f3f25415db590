-- ===== src/Snapshot/Mapping.antt =====
-- rootIDFromMapping (overlay.go): the host ID of a container's root in a text
-- "containerID:hostID:size,...".
pub mod Entries
use accelerated_container_im.Base.{
  String, Bool, ◌&&◌, Option, none, some, List, [], ◌∷◌, if◌then◌else◌,
}
use accelerated_container_im.Base.Int.{ℤ, pos, ◌+ℤ◌, ◌-ℤ◌, leb_ℤ, ltb_ℤ, wrap}
use accelerated_container_im.Base.Text.{split, split_n, trim_space, atoi}

-- An entry of the mapping: its three numbers, nothing (the entry is passed over), or a bad number.
pub data Entry : Type 0 where
  numbers : ℤ → ℤ → ℤ → Entry
  passed_over bad : Entry

abbrev three : Option ℤ → Option ℤ → Option ℤ → Entry
three (some c) (some h) (some s) = numbers c h s
three _ _ _ = bad

abbrev entry_of_parts : List String → Entry
entry_of_parts (c ∷ h ∷ s ∷ []) = three (atoi c) (atoi h) (atoi s)
entry_of_parts _ = passed_over

unfoldable pub parse_entry : String → Entry
unfolding split_n trim_space atoi
parse_entry text = entry_of_parts (split_n b':' 3 (trim_space text))

-- `containerID <= 0 && containerID+size > 0`
abbrev pub covers_root : ℤ → ℤ → Bool
covers_root c size = leb_ℤ c (pos 0) && ltb_ℤ (pos 0) (wrap (c +ℤ size))

-- The loop: the first entry that covers ID 0 decides, and a bad number before it is an error.
unfoldable pub root_of_entries : List Entry → Option ℤ
unfolding wrap ◌+ℤ◌ ◌-ℤ◌
root_of_entries [] = none
root_of_entries (passed_over ∷ es) = root_of_entries es
root_of_entries (bad ∷ es) = none
root_of_entries (numbers c h size ∷ es) =
    let rest = root_of_entries es in
    if covers_root c size then some (wrap (h +ℤ (pos 0 -ℤ c))) else rest

abbrev map_entries : List String → List Entry
map_entries [] = []
map_entries (t ∷ ts) = parse_entry t ∷ map_entries ts

-- rootIDFromMapping; `none` is an error.
unfoldable pub root_id_from_mapping : String → Option ℤ
unfolding split parse_entry root_of_entries
root_id_from_mapping mapping = root_of_entries (map_entries (split b',' mapping))
