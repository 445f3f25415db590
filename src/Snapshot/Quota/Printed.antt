-- ===== src/Snapshot/Quota/Printed.antt =====
-- How a quota ID is printed and read (pkg/snapshot/diskquota/prjquota.go).
use Prim.Native.Char.{Char}
use Prim.Native.String.{[], ◌∷◌, ◌++◌}
use text.Mathlib.TextLemmas.{cons-append, nil-append}
use accelerated_container_im.Base.{
  ℕ, zero, suc, ◌+◌, ◌*◌, ◌/◌, ◌%◌, ◌<◌, ◌^◌, ◌≡◌, refl, ap, ◌∙◌, String, some, ltb, Bool-cases,
  inl, inr, nat_eq, arith, ltb→lt,
}
use accelerated_container_im.Base.Text.{digits_from, digit, decimal_digits, decimal, atoi}
use accelerated_container_im.Snapshot.Quota.{safe_convert_to_uint32}

one : (c : Char) (s : String) → (c ∷ []) ++ s ≡ c ∷ s
one c s = rw (cons-append c [] s) (rw (nil-append s) refl)

digits_from-digit :
    (d m : ℕ) (rest : String)
    → d < 10
    → digits_from m (digit d ++ rest) ≡ digits_from (m * 10 + d) rest
unfolding digits_from
digits_from-digit zero m rest l = ap (digits_from m) (one _ rest)
digits_from-digit (suc zero) m rest l = ap (digits_from m) (one _ rest)
digits_from-digit (suc (suc zero)) m rest l = ap (digits_from m) (one _ rest)
digits_from-digit (suc (suc (suc zero))) m rest l = ap (digits_from m) (one _ rest)
digits_from-digit (suc (suc (suc (suc zero)))) m rest l = ap (digits_from m) (one _ rest)
digits_from-digit (suc (suc (suc (suc (suc zero))))) m rest l = ap (digits_from m) (one _ rest)
digits_from-digit (suc (suc (suc (suc (suc (suc zero)))))) m rest l =
    ap (digits_from m) (one _ rest)
digits_from-digit (suc (suc (suc (suc (suc (suc (suc zero))))))) m rest l =
    ap (digits_from m) (one _ rest)
digits_from-digit (suc (suc (suc (suc (suc (suc (suc (suc zero)))))))) m rest l =
    ap (digits_from m) (one _ rest)
digits_from-digit (suc (suc (suc (suc (suc (suc (suc (suc (suc zero))))))))) m rest l =
    ap (digits_from m) (one _ rest)
digits_from-digit (suc (suc (suc (suc (suc (suc (suc (suc (suc (suc d)))))))))) m rest l =
    absurd (omega (arith, l))

-- Reading goes on behind the digits that were printed.
digits_from-decimal :
    (fuel n : ℕ) (rest : String)
    → n < fuel
    → digits_from 0 (decimal_digits fuel n rest) ≡ digits_from n rest
unfolding decimal_digits
digits_from-decimal zero n rest l = absurd (omega (arith, l))
digits_from-decimal (suc fuel) n rest l = elim (Bool-cases (ltb n 10)) [
  | inl e ↦
      rw e (digits_from-digit n 0 rest (ltb→lt n 10 e) ∙ ap (λ k. digits_from k rest) (omega arith))
  | inr e ↦ rw e (
      rw (digits_from-decimal fuel (n / 10) (digit (n % 10) ++ rest) (ground (arith, l, e))) (
        rw (digits_from-digit (n % 10) (n / 10) rest (omega arith))
          (ap (λ k. digits_from k rest) (omega arith))))
]

decimal-digits : (n : ℕ) → digits_from 0 (decimal n) ≡ some n
unfolding decimal digits_from
decimal-digits n = digits_from-decimal (n + 1) n "" (omega arith)

-- A text of digits has no sign.
read_digits :
    (n : ℕ) (t : String)
    → digits_from 0 t ≡ some (suc n)
    → suc n < 2 ^ 32
    → safe_convert_to_uint32 t ≡ some (suc n)
unfolding safe_convert_to_uint32 atoi digits_from nat_eq
read_digits n [] e l = ground (arith, e)
read_digits n (c ∷ s) e l = ground (arith, e, l)

-- A quota ID, which has 32 bits, is read back by safeConvertToUInt32 as it is printed for chattr and
-- setquota.
pub safe_convert_to_uint32-decimal :
    (n : ℕ) → n < 2 ^ 32 → safe_convert_to_uint32 (decimal n) ≡ some n
unfolding safe_convert_to_uint32 decimal
safe_convert_to_uint32-decimal zero l = refl
safe_convert_to_uint32-decimal (suc n) l =
    read_digits n (decimal (suc n)) (decimal-digits (suc n)) l
