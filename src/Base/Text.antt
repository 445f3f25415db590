-- ===== src/Base/Text.antt =====
-- The functions of Go's strings, strconv and fmt packages that the program uses.
use Prim.Native.Char.{Char, code}
use Prim.Native.String.{len, slice, find}
use Prim.Native.Nat.{ℕ, zero, suc, ◌+◌, ◌-◌, ◌*◌, ◌/◌, ◌%◌, ◌^◌}
use Prim.Native.String.{String, [], ◌∷◌, ◌++◌}
use mathlib.Core.Bool.{Bool, true, false, ◌&&◌, ◌||◌}
use mathlib.Core.Option.{Option, none, some}
use mathlib.Core.List.{List}
use text.Mathlib.Text.{starts_with}
use accelerated_container_im.Base.Equality.{◌==◌, string_eq, nat_eq, if◌then◌else◌}
use accelerated_container_im.Base.Numbers.{ltb, leb}
use accelerated_container_im.Base.Int.{ℤ, pos, negsuc}

-- strings.HasSuffix
unfoldable pub has_suffix : String → String → Bool
unfolding string_eq
has_suffix s t = leb (len t) (len s) && slice s (len s - len t) (len s) == t

-- `s[from:to]`
unfoldable pub text_slice : String → ℕ → ℕ → String
text_slice s from to = slice s from to

-- strings.Contains
unfoldable pub contains_text : String → String → Bool
contains_text s t = leb (find s t) (len s)

-- strings.TrimPrefix, strings.TrimSuffix
unfoldable pub trim_prefix : String → String → String
trim_prefix s t = if starts_with s t then slice s (len t) (len s) else s

unfoldable pub trim_suffix : String → String → String
unfolding has_suffix
trim_suffix s t = if has_suffix s t then slice s 0 (len s - len t) else s

-- The text `c` in front of the first part.
abbrev push : Char → List String → List String
push c List.[] = List.◌∷◌ (c ∷ []) List.[]
push c (List.◌∷◌ part parts) = List.◌∷◌ (c ∷ part) parts

-- strings.SplitN at a separator of one character, given by its code, for a limit of at least 1
unfoldable pub split_n : ℕ → ℕ → String → List String
unfolding nat_eq
split_n sep n [] = List.◌∷◌ [] List.[]
split_n sep n (c ∷ s) =
    let here = code c == sep && ltb 1 n in
    let parts = split_n sep (if here then n - 1 else n) s in
    if here then List.◌∷◌ [] parts else push c parts

-- strings.Split at a separator of one character: there are fewer cuts than characters.
unfoldable pub split : ℕ → String → List String
unfolding split_n
split sep s = split_n sep (len s + 1) s

-- strings.TrimSpace, for the ASCII white space characters
abbrev is_space : ℕ → Bool
is_space c = (leb 9 c && leb c 13) || leb c 32 && leb 32 c

unfoldable pub trim_left : String → String
trim_left [] = []
trim_left (c ∷ s) = let rest = trim_left s in if is_space (code c) then rest else c ∷ s

unfoldable pub trim_right : String → String
unfolding string_eq
trim_right [] = []
trim_right (c ∷ s) =
    let rest = trim_right s in if is_space (code c) && rest == "" then [] else c ∷ rest

unfoldable pub trim_space : String → String
unfolding trim_left trim_right
trim_space s = trim_left (trim_right s)

-- The value of a text of digits, read from the left.
unfoldable pub digits_from : ℕ → String → Option ℕ
digits_from n [] = some n
digits_from n (c ∷ s) =
    let rest = digits_from (n * 10 + (code c - 48)) s in
    if leb 48 (code c) && leb (code c) 57 then rest else none

abbrev magnitude : String → Option ℕ
magnitude [] = none
magnitude (c ∷ s) = digits_from 0 (c ∷ s)

abbrev within : Bool → Option ℕ → Option ℤ
within negative none = none
within false (some n) = if ltb n (2 ^ 63) then some (pos n) else none
within true (some zero) = some (pos 0)
within true (some (suc n)) = if ltb n (2 ^ 63) then some (negsuc n) else none

-- strconv.Atoi: a sign at will, then digits, within 64 bits
unfoldable pub atoi : String → Option ℤ
unfolding digits_from nat_eq
atoi [] = none
atoi (c ∷ s) =
    if code c == b'-'
    then within true (magnitude s)
    else if code c == b'+'
    then within false (magnitude s)
    else within false (magnitude (c ∷ s))

-- The verb %d for a number that is not negative. A number has fewer digits than its value plus one.
abbrev pub digit : ℕ → String
digit d = slice "0123456789" d (d + 1)

unfoldable pub decimal_digits : ℕ → ℕ → String → String
decimal_digits zero n rest = rest
decimal_digits (suc fuel) n rest =
    let more = decimal_digits fuel (n / 10) (digit (n % 10) ++ rest) in
    if ltb n 10 then digit n ++ rest else more

unfoldable pub decimal : ℕ → String
unfolding decimal_digits
decimal n = decimal_digits (n + 1) n ""

-- The verb %d.
unfoldable pub decimal_ℤ : ℤ → String
unfolding decimal
decimal_ℤ (pos n) = decimal n
decimal_ℤ (negsuc n) = "-" ++ decimal (suc n)

abbrev last_part : List String → String
last_part List.[] = ""
last_part (List.◌∷◌ part List.[]) = part
last_part (List.◌∷◌ part (List.◌∷◌ next parts)) = last_part (List.◌∷◌ next parts)

-- filepath.Split: what stands behind the last slash, and what stands up to it
unfoldable pub base_name : String → String
unfolding split
base_name path = last_part (split b'/' path)

unfoldable pub dir_name : String → String
unfolding base_name
dir_name path = slice path 0 (len path - len (base_name path))

-- path.Dir and filepath.Dir of a clean path
unfoldable pub parent_dir : String → String
unfolding dir_name trim_suffix string_eq
parent_dir path =
    let dir = dir_name path in
    if dir == "" then "." else if dir == "/" then dir else trim_suffix dir "/"

-- strings.ReplaceAll of one character, given by its code, by a text
unfoldable pub replace_char : ℕ → String → String → String
unfolding nat_eq
replace_char c t [] = []
replace_char c t (d ∷ s) =
    let rest = replace_char c t s in if code d == c then t ++ rest else d ∷ rest
