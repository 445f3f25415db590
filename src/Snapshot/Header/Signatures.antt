-- ===== src/Snapshot/Header/Signatures.antt =====
-- The header test against the signatures written out as bytes.
use Prim.Native.Nat.add
use accelerated_container_im.Base.{
  ℕ, zero, suc, ◌+◌, ◌≤◌, ◌<◌, ◌≡◌, refl, sym, ap, ◌∙◌, ◌↔◌, ◌⊎◌, inl, inr, Bool, true, ◌&&◌, List,
  [], ◌∷◌, ◌++◌, arith, ◌==◌, nat_eq,
}
use accelerated_container_im.Base.Lists.{length, take, drop}
use accelerated_container_im.Snapshot.Header.{little_endian, slice, is_overlaybd_file_header}

-- "ZFile\0\1\0tuji.yyf@Alibaba" with the magic numbers of its three words
abbrev pub zfile_signature : List ℕ
zfile_signature =
    90 ∷ 70 ∷ 105 ∷ 108 ∷ 101 ∷ 0 ∷ 1 ∷ 0 ∷ 116 ∷ 117 ∷ 106 ∷ 105 ∷ 46 ∷ 121 ∷ 121 ∷ 102 ∷ 64 ∷ 65
    ∷ 108 ∷ 105 ∷ 98 ∷ 97 ∷ 98 ∷ 97 ∷ []

abbrev pub lsmt_signature : List ℕ
lsmt_signature =
    76 ∷ 83 ∷ 77 ∷ 84 ∷ 0 ∷ 1 ∷ 2 ∷ 0 ∷ 101 ∷ 126 ∷ 99 ∷ 210 ∷ 148 ∷ 68 ∷ 8 ∷ 76 ∷ 162 ∷ 210 ∷ 200
    ∷ 236 ∷ 79 ∷ 207 ∷ 174 ∷ 138 ∷ []

abbrev pub Bytes : List ℕ → Type 0
Bytes [] = Unit
Bytes (b ∷ bs) = (b < 256) × Bytes bs

-- Two texts of one length with the same little-endian value are the same.
pub little_endian_inj :
    (xs ys : List ℕ)
    → length xs ≡ length ys
    → Bytes xs
    → Bytes ys
    → little_endian xs ≡ little_endian ys
    → xs ≡ ys
unfolding little_endian
little_endian_inj [] [] l p q e = refl
little_endian_inj [] (y ∷ ys) l p q e = absurd (omega arith)
little_endian_inj (x ∷ xs) [] l p q e = absurd (omega arith)
little_endian_inj (x ∷ xs) (y ∷ ys) l (px, p) (py, q) e =
    cc (little_endian_inj xs ys (omega arith) p q (omega arith), (let r : x ≡ y = omega arith in r))

pub take-Bytes : (n : ℕ) (xs : List ℕ) → Bytes xs → Bytes (take n xs)
take-Bytes zero xs p = tt
take-Bytes (suc n) [] p = tt
take-Bytes (suc n) (x ∷ xs) (b, p) = (b, take-Bytes n xs p)

drop-Bytes : (n : ℕ) (xs : List ℕ) → Bytes xs → Bytes (drop n xs)
drop-Bytes zero xs p = p
drop-Bytes (suc n) [] p = tt
drop-Bytes (suc n) (x ∷ xs) (b, p) = drop-Bytes n xs p

length-slice : (m n : ℕ) (xs : List ℕ) → m + n ≤ length xs → length (slice m n xs) ≡ n
length-slice zero zero xs h = refl
length-slice zero (suc n) [] h = absurd (omega arith)
length-slice zero (suc n) (x ∷ xs) h = omega (arith, length-slice zero n xs (omega arith))
length-slice (suc m) zero [] h = refl
length-slice (suc m) (suc n) [] h = absurd (omega arith)
length-slice (suc m) n (x ∷ xs) h = length-slice m n xs (omega arith)

-- A slice of a prefix that covers it is the slice.
slice-take : (m n k : ℕ) (xs : List ℕ) → m + n ≤ k → slice m n (take k xs) ≡ slice m n xs
slice-take zero zero k xs h = refl
slice-take zero (suc n) zero xs h = absurd (omega arith)
slice-take zero (suc n) (suc k) [] h = refl
slice-take zero (suc n) (suc k) (x ∷ xs) h = ap (λ r. x ∷ r) (slice-take zero n k xs (omega arith))
slice-take (suc m) n zero xs h = absurd (omega arith)
slice-take (suc m) n (suc k) [] h = refl
slice-take (suc m) n (suc k) (x ∷ xs) h = slice-take m n k xs (omega arith)

take-nil : (n : ℕ) → take {A = ℕ} n [] ≡ []
take-nil zero = refl
take-nil (suc n) = refl

take-add : (m n : ℕ) (xs : List ℕ) → take (m + n) xs ≡ take m xs ++ slice m n xs
take-add zero n xs = rw add.zero
take-add (suc m) n [] = rw add.suc (sym (take-nil n))
take-add (suc m) n (x ∷ xs) = rw add.suc (ap (λ r. x ∷ r) (take-add m n xs))

length-take_le : (k : ℕ) (xs : List ℕ) → length (take k xs) ≤ length xs
length-take_le zero xs = omega arith
length-take_le (suc k) [] = omega arith
length-take_le (suc k) (x ∷ xs) = omega (arith, length-take_le k xs)

-- A word of the header is the word of eight given bytes only if the slice is those bytes.
word_iff :
    (m : ℕ) (header word : List ℕ)
    → Bytes header
    → Bytes word
    → length word ≡ 8
    → m + 8 ≤ length header
    → ((little_endian (slice m 8 header) == little_endian word) ≡ true) ↔ (slice m 8 header ≡ word)
word_iff m header word p q l h = (
  λ e.
      little_endian_inj _ _ (length-slice m 8 header h ∙ sym l)
        (take-Bytes 8 (drop m header) (drop-Bytes m header p)) q (ground arith),
  λ e. ground arith,
)

module _ (header signature : List ℕ) (bytes : Bytes header) (bytes' : Bytes signature) where
  abbrev words : Bool
  words =
      (little_endian (slice 0 8 header) == little_endian (slice 0 8 signature))
      && ((little_endian (slice 8 8 header) == little_endian (slice 8 8 signature))
          && (little_endian (slice 16 8 header) == little_endian (slice 16 8 signature)))

  same_word :
      (m : ℕ)
      → length signature ≡ 24
      → 24 ≤ length header
      → m + 8 ≤ 24
      → ((little_endian (slice m 8 header) == little_endian (slice m 8 signature)) ≡ true)
        ↔ (slice m 8 header ≡ slice m 8 signature)
  same_word m l h k =
      word_iff m header _ bytes (take-Bytes 8 _ (drop-Bytes m signature bytes'))
        (length-slice m 8 signature (omega arith)) (omega arith)

  same_slice :
      (m : ℕ)
      → take 24 header ≡ take 24 signature
      → m + 8 ≤ 24
      → slice m 8 header ≡ slice m 8 signature
  same_slice m e k =
      sym (slice-take m 8 24 header k) ∙ ap (slice m 8) e ∙ slice-take m 8 24 signature k

  words_sound :
      length signature ≡ 24 → 24 ≤ length header → words ≡ true → take 24 header ≡ take 24 signature
  words_sound l h w =
      let first : slice 0 8 header ≡ slice 0 8 signature =
        (same_word 0 l h (omega arith)).0 (ground arith) in
      let second : slice 8 8 header ≡ slice 8 8 signature =
        (same_word 8 l h (omega arith)).0 (ground arith) in
      let third : slice 16 8 header ≡ slice 16 8 signature =
        (same_word 16 l h (omega arith)).0 (ground arith) in
      cc (
        first,
        second,
        third,
        take-add 16 8 header,
        take-add 8 8 header,
        take-add 16 8 signature,
        take-add 8 8 signature,
      )

  words_complete : take 24 header ≡ take 24 signature → words ≡ true
  words_complete e = ground (
    arith,
    same_slice 0 e (omega arith),
    same_slice 8 e (omega arith),
    same_slice 16 e (omega arith),
  )

-- The test passes on exactly the headers of at least 24 bytes that start with one of the two
-- signatures.
pub is_overlaybd_file_header_iff :
    (header : List ℕ)
    → Bytes header
    → (is_overlaybd_file_header header ≡ true)
      ↔ ((take 24 header ≡ zfile_signature) ⊎ (take 24 header ≡ lsmt_signature))
unfolding is_overlaybd_file_header little_endian
is_overlaybd_file_header_iff header bytes = (
  λ e. ground (
    arith,
    words_sound header zfile_signature bytes (omega arith) refl,
    words_sound header lsmt_signature bytes (omega arith) refl,
  ),
  λ e. elim e [
    | inl z ↦ ground (
      arith,
      words_complete header zfile_signature bytes (omega arith) z,
      ap length z,
      length-take_le 24 header,
    )
    | inr l ↦ ground (
      arith,
      words_complete header lsmt_signature bytes (omega arith) l,
      ap length l,
      length-take_le 24 header,
    )
  ],
)
