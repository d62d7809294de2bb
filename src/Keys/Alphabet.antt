-- ===== src/Keys/Alphabet.antt =====
-- internal/didresolver/didkey.go: the alphabet's bytes and the digits that they stand for.
use vtafarm_api.Base.{
  ℕ, zero, suc, ◌+◌, ◌*◌, ◌<◌, Bool, true, false, not, ◌&&◌, ◌||◌, List, [], ◌∷◌, map, some, All,
  ◌==◌, length, ◌≡◌, refl, arith, Bool-cases, Option-cases, inl, inr,
}
use vtafarm_api.Keys.Base58.{alphabet, index_of, byte_at, number, for_leading, decode_number}

abbrev is_among : ℕ → List ℕ → Bool
is_among c [] = false
is_among c (x ∷ xs) = x == c || is_among c xs

abbrev has_no_repeat : List ℕ → Bool
has_no_repeat [] = true
has_no_repeat (x ∷ xs) = not (is_among x xs) && has_no_repeat xs

byte_at-among : (xs : List ℕ) (d : ℕ) → d < length xs → is_among (byte_at xs d) xs ≡ true
unfolding byte_at
byte_at-among [] d h = absurd (omega (arith, h))
byte_at-among (x ∷ xs) zero h = ground arith
byte_at-among (x ∷ xs) (suc d) h = ground (arith, byte_at-among xs d (omega (arith, h)))

index_of-byte_at :
    (xs : List ℕ) (d : ℕ)
    → has_no_repeat xs ≡ true
    → d < length xs
    → index_of (byte_at xs d) xs ≡ some d
unfolding index_of byte_at
index_of-byte_at [] d u h = absurd (omega (arith, h))
index_of-byte_at (x ∷ xs) zero u h = ground arith
index_of-byte_at (x ∷ xs) (suc d) u h = ground (
  arith,
  u,
  byte_at-among xs d (omega (arith, h)),
  index_of-byte_at xs d (ground (arith, u)) (omega (arith, h)),
)

byte_at-index_of :
    (c : ℕ) (xs : List ℕ) (d : ℕ) → index_of c xs ≡ some d → (byte_at xs d ≡ c) × (d < length xs)
unfolding index_of byte_at
byte_at-index_of c [] d h = cc
byte_at-index_of c (x ∷ xs) zero h = elim (Bool-cases (x == c)) [
  | inl e ↦ (ground (arith, e), omega arith)
  | inr e ↦ elim (Option-cases (index_of c xs)) [
    | inl t ↦ ground (arith, h, e, t)
    | inr (i, t) ↦ ground (arith, h, e, t)
  ]
]
byte_at-index_of c (x ∷ xs) (suc d) h =
    let inner : index_of c xs ≡ some d = elim (Option-cases (index_of c xs)) [
      | inl t ↦ ground (arith, h, t)
      | inr (i, t) ↦ ground (arith, h, t)
    ] in
    ground (arith, byte_at-index_of c xs d inner)

alphabet-has_no_repeat : has_no_repeat alphabet ≡ true
unfolding alphabet
alphabet-has_no_repeat = refl

length-alphabet : length alphabet ≡ 58
unfolding alphabet
length-alphabet = refl

abbrev pub text_of : List ℕ → List ℕ
text_of = map (byte_at alphabet)

pub decode_number-text_of :
    (ds : List ℕ) (n : ℕ)
    → All (λ d. d < 58) ds
    → decode_number (text_of ds) n ≡ some (number 58 n ds)
unfolding decode_number number
decode_number-text_of [] n h = refl
decode_number-text_of (d ∷ ds) n h =
    let here =
      index_of-byte_at alphabet d alphabet-has_no_repeat (omega (arith, h.0, length-alphabet)) in
    ground (arith, here, decode_number-text_of ds (n * 58 + d) h.1)

-- What is decoded is the text of digits.
pub decode_number-some :
    (cs : List ℕ) (n m : ℕ)
    → decode_number cs n ≡ some m
    → (ds : List ℕ) × (All (λ d. d < 58) ds) × (text_of ds ≡ cs) × (number 58 n ds ≡ m)
unfolding decode_number number
decode_number-some [] n m h = ([], tt, refl, ground (arith, h))
decode_number-some (c ∷ cs) n m h = elim (Option-cases (index_of c alphabet)) [
  | inl e ↦ ground (arith, h, e)
  | inr (i, e) ↦
      let (same, lt) = byte_at-index_of c alphabet i e in
      let (ds, small, text, value) = decode_number-some cs (n * 58 + i) m (ground (arith, h, e)) in
      (i ∷ ds, (omega (arith, lt, length-alphabet), small), cc (same, text), value)
]

index_of-alphabet : (d : ℕ) → d < 58 → index_of (byte_at alphabet d) alphabet ≡ some d
index_of-alphabet d h =
    index_of-byte_at alphabet d alphabet-has_no_repeat (omega (arith, h, length-alphabet))

-- Only the digit 0 is written as the first byte of the alphabet.
is_first : (d : ℕ) → d < 58 → (byte_at alphabet d == byte_at alphabet 0) ≡ (d == 0)
is_first d h = elim (Bool-cases (byte_at alphabet d == byte_at alphabet 0)) [
  | inl e ↦
      let same : byte_at alphabet d ≡ byte_at alphabet 0 = ground (arith, e) in
      ground (arith, e, index_of-alphabet d h, same, index_of-alphabet 0 (omega arith))
  | inr e ↦ ground (arith, e)
]

pub for_leading-text_of :
    (ds : List ℕ)
    → All (λ d. d < 58) ds
    → for_leading (byte_at alphabet 0) 0 (text_of ds) ≡ for_leading 0 0 ds
unfolding for_leading
for_leading-text_of [] h = refl
for_leading-text_of (d ∷ ds) h = ground (arith, is_first d h.0, for_leading-text_of ds h.1)
