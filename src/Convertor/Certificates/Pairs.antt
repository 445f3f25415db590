-- ===== src/Convertor/Certificates/Pairs.antt =====
-- How a client certificate is written in an option (loadTLSConfig in builder.go).
use Prim.Native.Char.{Char, code}
use Prim.Native.String.len
use Prim.Native.String.{String, [], ◌∷◌, ◌++◌, len}
use text.Mathlib.TextLemmas.{cons-append, nil-append}
use text.Mathlib.TextPositions.{len-append, len_utf8-pos}
use accelerated_container_im.Base.{
  ℕ, ◌-◌, ◌+◌, ◌≡◌, refl, ap, ◌∙◌, Bool, true, not, ◌&&◌, ◌==◌, nat_eq, ltb, arith, List, map,
}
use accelerated_container_im.Base.Lists.{All, none_left, both}
use accelerated_container_im.Convertor.Certificates.{CertPair, client_pairs}
use accelerated_container_im.Host.{History}
use accelerated_container_im.Host.Exec.{pure, ◌>>=◌}
use accelerated_container_im.Host.Types.{ok}
use accelerated_container_im.Base.Text.{split, split_n}

-- No character of a text has the code `sep`.
unfoldable pub lacks : ℕ → String → Bool
unfolding nat_eq
lacks sep [] = true
lacks sep (c ∷ s) = not (code c == sep) && lacks sep s

split_n-lacks : (sep n : ℕ) (s : String) → lacks sep s ≡ true → split_n sep n s ≡ List.◌∷◌ s List.[]
unfolding split_n lacks
split_n-lacks sep n [] e = refl
split_n-lacks sep n (c ∷ s) e = ground (arith, e, split_n-lacks sep n s)

split_n-append :
    (sep n : ℕ) (d : Char) (a k : String)
    → code d ≡ sep
    → ltb 1 n ≡ true
    → lacks sep a ≡ true
    → split_n sep n (a ++ (d ∷ k)) ≡ List.◌∷◌ a (split_n sep (n - 1) k)
unfolding split_n lacks
split_n-append sep n d [] k e l f = rw (nil-append (d ∷ k)) (ground (arith, e, l))
split_n-append sep n d (c ∷ a) k e l f =
    rw (cons-append c a (d ∷ k)) (ground (arith, e, l, f, split_n-append sep n d a k e l))

long_enough : (a : String) (d : Char) (k : String) → ltb 1 (len (a ++ (d ∷ k)) + 1) ≡ true
long_enough a d k = ground (arith, len-append a (d ∷ k), len.cons d k, (len_utf8-pos d).1)

-- A text with one cut.
split_pair :
    (sep : ℕ) (d : Char) (a k : String)
    → code d ≡ sep
    → lacks sep a ≡ true
    → lacks sep k ≡ true
    → split sep (a ++ (d ∷ k)) ≡ List.◌∷◌ a (List.◌∷◌ k List.[])
unfolding split
split_pair sep d a k e f g =
    split_n-append sep (len (a ++ (d ∷ k)) + 1) d a k e (long_enough a d k) f
    ∙ ap (List.◌∷◌ a) (split_n-lacks sep _ k g)

-- A pair of files as the option `--client-cert` has it.
abbrev pub as_option : CertPair → String
as_option pair = pair.cert_file ++ (":" ∷ pair.key_file)

abbrev pub WithoutColon : CertPair → Type 0
WithoutColon pair = (lacks b':' pair.cert_file ≡ true) × (lacks b':' pair.key_file ≡ true)

-- The pairs of files that the options `--client-cert` name are read back as they were written, in their
-- order, if no file name has a colon.
pub client_pairs-as_option :
    (pairs : List CertPair) (h : History)
    → All WithoutColon pairs
    → client_pairs (map as_option pairs) h ≡ (ok pairs, h)
unfolding client_pairs pure ◌>>=◌
client_pairs-as_option List.[] h none_left = refl
client_pairs-as_option (List.◌∷◌ pair pairs) h (both (c, k) rest) =
    rw (split_pair b':' ":" pair.cert_file pair.key_file refl c k)
      (rw (client_pairs-as_option pairs h rest) refl)
