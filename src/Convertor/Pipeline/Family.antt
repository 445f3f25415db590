-- ===== src/Convertor/Pipeline/Family.antt =====
-- Functions from the index of a layer: put_at at one index, and sums over the first indices.
use accelerated_container_im.Base.{ℕ, zero, suc, ◌+◌, ◌*◌, ◌<◌, ◌≤◌, ◌≡◌, refl, arith}
use mathlib.Core.Logic.{ite}
use native.Mathlib.Decide.{ℕ_discrete, dec_lt}

abbrev pub put_at {ℓ} : {A : Type ℓ} → (ℕ → A) → ℕ → A → ℕ → A
put_at f i a j = ite (ℕ_discrete i j) a (f j)

module _ {ℓ} {A : Type ℓ} (w : A → ℕ) where
  pub sum : ℕ → (ℕ → A) → ℕ
  sum zero f = 0
  sum (suc n) f = sum n f + w (f n)

  sum-put_at_of_le : (n : ℕ) (f : ℕ → A) (i : ℕ) (a : A) → n ≤ i → sum n (put_at f i a) ≡ sum n f
  unfolding sum
  sum-put_at_of_le zero f i a l = refl
  sum-put_at_of_le (suc n) f i a l = ground (arith, sum-put_at_of_le n f i a)

  pub sum-put_at :
      (n : ℕ) (f : ℕ → A) (i : ℕ) (a : A) → i < n → sum n (put_at f i a) + w (f i) ≡ sum n f + w a
  unfolding sum
  sum-put_at zero f i a l = absurd (omega arith)
  sum-put_at (suc n) f i a l = elim (dec_lt i n) [
    | yes below ↦ ground (arith, sum-put_at n f i a below)
    | no last ↦ ground (arith, sum-put_at_of_le n f i a)
  ]

  pub sum-const : (n : ℕ) (a : A) → sum n (λ _. a) ≡ n * w a
  unfolding sum
  sum-const zero a = omega arith
  sum-const (suc n) a = grind (arith, sum-const n a)
