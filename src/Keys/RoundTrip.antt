-- ===== src/Keys/RoundTrip.antt =====
-- internal/didresolver/didkey.go: encoding and decoding base58btc are inverse to each other.
use vtafarm_api.Base.{
  ℕ, ◌+◌, ◌*◌, ◌<◌, List, [], ◌∷◌, ◌++◌, map, none, some, All, All-append, ◌==◌, length,
  length-append, ◌≡◌, refl, sym, ap, ◌∙◌, arith, ◌≢◌, ◌↔◌, Bool-cases, Option-cases, inl, inr,
}
use mathlib.Core.Option.{some-injective}
use mathlib.Core.List.{append_assoc, append-nil}
use vtafarm_api.Keys.Base58.{
  alphabet, byte_at, reverse, low_digits, number, for_leading, encode_base58, decode_number,
  decode_base58,
}
use vtafarm_api.Keys.Alphabet.{
  text_of, for_leading-text_of, decode_number-text_of, decode_number-some,
}
use vtafarm_api.Keys.Digits.{
  IsBase, IsBase-58, IsBase-256, high_digits, digits-number, number-digits, low_digits-digit,
}

abbrev zeros : List ℕ → List ℕ
zeros ds = for_leading 0 0 ds

-- The digits in one base, turned into those in another with the same leading zeros.
abbrev transcode : ℕ → ℕ → List ℕ → List ℕ
transcode from to ds = zeros ds ++ high_digits to (number from 0 ds)

number-zeros : (base : ℕ) (ds xs : List ℕ) → number base 0 (zeros ds ++ xs) ≡ number base 0 xs
unfolding number for_leading
number-zeros base [] xs = refl
number-zeros base (d ∷ ds) xs =
    let here : 0 * base + 0 ≡ 0 = omega arith in ground (arith, here, number-zeros base ds xs)

zeros-append : (ds xs : List ℕ) → zeros (zeros ds ++ xs) ≡ zeros ds ++ zeros xs
unfolding for_leading
zeros-append [] xs = refl
zeros-append (d ∷ ds) xs = ground (arith, zeros-append ds xs)

All-reverse : (P : ℕ → Type 0) (xs : List ℕ) → All P xs → All P (reverse xs)
All-reverse P [] h = tt
All-reverse P (x ∷ xs) h = All-append P (reverse xs) (x ∷ []) (All-reverse P xs h.1) (h.0, tt)

high_digits-digit : (base : ℕ) → IsBase base → (n : ℕ) → All (λ d. d < base) (high_digits base n)
high_digits-digit base b n = All-reverse _ _ (low_digits-digit base b n n)

empty_prefix : (xs ys : List ℕ) → xs ++ ys ≡ ys → xs ≡ []
empty_prefix [] ys h = refl
empty_prefix (x ∷ xs) ys h = absurd (omega (arith, ap length h, length-append xs ys))

-- The digits of a number have no leading zero.
zeros-high_digits : (base : ℕ) → IsBase base → (n : ℕ) → zeros (high_digits base n) ≡ []
zeros-high_digits base b n = empty_prefix (zeros (high_digits base n)) (high_digits base n) (
    ap (λ k. zeros (high_digits base n) ++ high_digits base k) (sym (number-digits base b n))
    ∙ digits-number base b (high_digits base n) (high_digits-digit base b n))

transcode_back :
    (from to : ℕ)
    → IsBase from
    → IsBase to
    → (ds : List ℕ) → All (λ d. d < from) ds
    → transcode to from (transcode from to ds) ≡ ds
transcode_back from to f t ds h =
    let n = number from 0 ds in
    let lead : zeros (transcode from to ds) ≡ zeros ds =
      zeros-append ds (high_digits to n)
      ∙ ap (λ xs. zeros ds ++ xs) (zeros-high_digits to t n)
      ∙ append-nil (zeros ds) in
    let same : number to 0 (transcode from to ds) ≡ n =
      number-zeros to ds (high_digits to n) ∙ number-digits to t n in
    ap (λ xs. xs ++ high_digits from (number to 0 (transcode from to ds))) lead
    ∙ ap (λ k. zeros ds ++ high_digits from k) same
    ∙ digits-number from f ds h

reverse-append : (xs ys : List ℕ) → reverse (xs ++ ys) ≡ reverse ys ++ reverse xs
reverse-append [] ys = sym (append-nil (reverse ys))
reverse-append (x ∷ xs) ys =
    ap (λ zs. zs ++ x ∷ []) (reverse-append xs ys) ∙ append_assoc (reverse ys) (reverse xs) (x ∷ [])

map-append : (f : ℕ → ℕ) (xs ys : List ℕ) → map f (xs ++ ys) ≡ map f xs ++ map f ys
map-append f [] ys = refl
map-append f (x ∷ xs) ys = ap (λ zs. f x ∷ zs) (map-append f xs ys)

reverse-map : (f : ℕ → ℕ) (xs : List ℕ) → reverse (map f xs) ≡ map f (reverse xs)
reverse-map f [] = refl
reverse-map f (x ∷ xs) =
    ap (λ zs. zs ++ f x ∷ []) (reverse-map f xs) ∙ sym (map-append f (reverse xs) (x ∷ []))

-- All elements are one value, so the order is nothing.
for_leading-snoc : (c v : ℕ) (xs : List ℕ) → for_leading c v xs ++ v ∷ [] ≡ v ∷ for_leading c v xs
unfolding for_leading
for_leading-snoc c v [] = refl
for_leading-snoc c v (x ∷ xs) = ground (arith, for_leading-snoc c v xs)

reverse-for_leading : (c v : ℕ) (xs : List ℕ) → reverse (for_leading c v xs) ≡ for_leading c v xs
unfolding for_leading
reverse-for_leading c v [] = refl
reverse-for_leading c v (x ∷ xs) =
    ground (arith, reverse-for_leading c v xs, for_leading-snoc c v xs)

map-for_leading :
    (f : ℕ → ℕ) (c v : ℕ) (xs : List ℕ) → map f (for_leading c v xs) ≡ for_leading c (f v) xs
unfolding for_leading
map-for_leading f c v [] = refl
map-for_leading f c v (x ∷ xs) = ground (arith, map-for_leading f c v xs)

-- The encoding is the text of the digits in base 58.
pub encode_base58-text_of : (v : List ℕ) → encode_base58 v ≡ text_of (transcode 256 58 v)
unfolding encode_base58
encode_base58-text_of v =
    let n = number 256 0 v in
    let f = byte_at alphabet in
    reverse-append (map f (low_digits 58 n n)) (for_leading 0 (f 0) v)
    ∙ ap (λ xs. xs ++ reverse (map f (low_digits 58 n n)))
        (reverse-for_leading 0 (f 0) v ∙ sym (map-for_leading f 0 0 v))
    ∙ ap (λ xs. map f (zeros v) ++ xs) (reverse-map f (low_digits 58 n n))
    ∙ sym (map-append f (zeros v) (high_digits 58 n))

decode_base58-cons :
    (c : ℕ) (cs : List ℕ) (n : ℕ)
    → decode_number (c ∷ cs) 0 ≡ some n
    → decode_base58 (c ∷ cs)
      ≡ some (for_leading (byte_at alphabet 0) 0 (c ∷ cs) ++ high_digits 256 n)
unfolding decode_base58
decode_base58-cons c cs n e = ground (arith, e)

decode_base58-none :
    (c : ℕ) (cs : List ℕ) → decode_number (c ∷ cs) 0 ≡ none → decode_base58 (c ∷ cs) ≡ none
unfolding decode_base58
decode_base58-none c cs e = ground (arith, e)

decode_base58_empty : decode_base58 [] ≡ none
unfolding decode_base58
decode_base58_empty = refl

-- The decoding of the text of digits gives the digits in base 256.
pub decode_base58-text_of :
    (ds : List ℕ)
    → All (λ d. d < 58) ds
    → 0 < length ds
    → decode_base58 (text_of ds) ≡ some (transcode 58 256 ds)
decode_base58-text_of [] h p = absurd (omega (arith, p))
decode_base58-text_of (d ∷ ds) h p =
    decode_base58-cons (byte_at alphabet d) (text_of ds) (number 58 0 (d ∷ ds))
      (decode_number-text_of (d ∷ ds) 0 h)
    ∙ ap (λ xs. some (xs ++ high_digits 256 (number 58 0 (d ∷ ds))))
        (for_leading-text_of (d ∷ ds) h)

abbrev pub AreBytes : List ℕ → Type 0
AreBytes = All (λ b. b < 256)

zeros-digit : (base : ℕ) → IsBase base → (ds : List ℕ) → All (λ d. d < base) (zeros ds)
unfolding for_leading
zeros-digit base b [] = tt
zeros-digit base b (d ∷ ds) = elim (Bool-cases (d == 0)) [
  | inl e ↦ rw e (b.positive, zeros-digit base b ds)
  | inr e ↦ rw e tt
]

transcode-digit :
    (from to : ℕ) → IsBase to → (ds : List ℕ) → All (λ d. d < to) (transcode from to ds)
transcode-digit from to t ds =
    All-append (λ d. d < to) (zeros ds) (high_digits to (number from 0 ds)) (zeros-digit to t ds)
      (high_digits-digit to t (number from 0 ds))

transcode_empty : (from to : ℕ) → transcode from to [] ≡ []
unfolding number for_leading low_digits
transcode_empty from to = refl

length_pos : (xs : List ℕ) → xs ≢ [] → 0 < length xs
length_pos [] h = absurd (h refl)
length_pos (x ∷ xs) h = omega arith

decode_encoded : (v : List ℕ) → AreBytes v → 0 < length v → decode_base58 (encode_base58 v) ≡ some v
decode_encoded v h p =
    let ds = transcode 256 58 v in
    let back = transcode_back 256 58 IsBase-256 IsBase-58 v h in
    let pos : 0 < length ds = length_pos ds (λ e.
      let gone : v ≡ [] = sym back ∙ ap (transcode 58 256) e ∙ transcode_empty 58 256 in
      omega (arith, p, ap length gone)) in
    ap decode_base58 (encode_base58-text_of v)
    ∙ decode_base58-text_of ds (transcode-digit 256 58 IsBase-58 v) pos
    ∙ ap (λ xs. some xs) back

encode_decoded : (t v : List ℕ) → decode_base58 t ≡ some v → encode_base58 v ≡ t
encode_decoded [] v e = ground (arith, e, decode_base58_empty)
encode_decoded (c ∷ cs) v e = elim (Option-cases (decode_number (c ∷ cs) 0)) [
  | inl n ↦ ground (arith, e, decode_base58-none c cs n)
  | inr (m, n) ↦
      let (ds, small, text, value) = decode_number-some (c ∷ cs) 0 m n in
      let long : 0 < length ds = length_pos ds (λ gone. cc (text, gone)) in
      let same : v ≡ transcode 58 256 ds =
        some-injective v (transcode 58 256 ds)
          (sym e ∙ ap decode_base58 (sym text) ∙ decode_base58-text_of ds small long) in
      ap encode_base58 same
      ∙ encode_base58-text_of (transcode 58 256 ds)
      ∙ ap text_of (transcode_back 58 256 IsBase-58 IsBase-256 ds small)
      ∙ text
]

-- Modelling internal/didresolver/didkey.go: a list of bytes that is not empty is encoded by
-- EncodeBase58BTC as a text exactly if DecodeBase58BTC decodes the text to the list; so each is the
-- other's inverse, and every text that is decoded is the canonical one.
pub encode_base58-iff-decode_base58 :
    (v t : List ℕ) → AreBytes v → 0 < length v → (encode_base58 v ≡ t) ↔ (decode_base58 t ≡ some v)
encode_base58-iff-decode_base58 v t h p =
    (λ e. ap decode_base58 (sym e) ∙ decode_encoded v h p, encode_decoded t v)
