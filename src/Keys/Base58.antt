-- ===== src/Keys/Base58.antt =====
-- internal/didresolver/didkey.go: DecodeBase58BTC and EncodeBase58BTC. A text is the list of its
-- bytes; a big.Int that is not negative is a number.
use vtafarm_api.Base.{
  ℕ, zero, suc, ◌+◌, ◌*◌, true, false, List, [], ◌∷◌, ◌++◌, map, Option, none, some, ◌==◌,
  if◌then◌else◌,
}
use Prim.Native.Nat.{◌/◌, ◌%◌}
use Prim.Native.Char.{code}
use Prim.Native.String.{String}

-- The bytes of a text, where it is ASCII; other characters have numbers above 127.
unfoldable pub codes : String → List ℕ
codes String.[] = []
codes (String.◌∷◌ c s) = code c ∷ codes s

-- base58BTCAlphabet
unfoldable pub alphabet : List ℕ
unfolding codes
alphabet = codes "123456789ABCDEFGHJKLMNPQRSTUVWXYZabcdefghijkmnopqrstuvwxyz"

-- alphabetIndexes: where a byte stands in the alphabet, -1 if it does not.
unfoldable pub index_of : ℕ → List ℕ → Option ℕ
index_of c [] = none
index_of c (x ∷ xs) =
    let rest = index_of c xs in
    if x == c then some 0 else elim rest [ none ↦ none | some i ↦ some (suc i) ]

unfoldable pub byte_at : List ℕ → ℕ → ℕ
byte_at [] i = 0
byte_at (x ∷ xs) zero = x
byte_at (x ∷ xs) (suc i) = byte_at xs i

abbrev pub reverse : List ℕ → List ℕ
reverse [] = []
reverse (x ∷ xs) = reverse xs ++ x ∷ []

-- The loop of DivMod, with the least digit first; the number itself is enough fuel.
unfoldable pub low_digits : ℕ → ℕ → ℕ → List ℕ
low_digits base zero n = []
low_digits base (suc fuel) n = elim (n == 0) [
  | true ↦ []
  | false ↦ n % base ∷ low_digits base fuel (n / base)
]

-- The number of a list of digits: SetBytes for 256.
unfoldable pub number : ℕ → ℕ → List ℕ → ℕ
number base n [] = n
number base n (d ∷ ds) = number base (n * base + d) ds

-- Bytes of big.Int: the digits of base 256 with no leading zero.
unfoldable pub big_bytes : ℕ → List ℕ
unfolding low_digits
big_bytes n = reverse (low_digits 256 n n)

-- One value for each first element of a list that equals the given one.
unfoldable pub for_leading : ℕ → ℕ → List ℕ → List ℕ
for_leading c v [] = []
for_leading c v (x ∷ xs) = let rest = for_leading c v xs in if x == c then v ∷ rest else []

-- EncodeBase58BTC
unfoldable pub encode_base58 : List ℕ → List ℕ
unfolding alphabet byte_at low_digits number for_leading
encode_base58 value =
    let n = number 256 0 value in
    reverse (map (byte_at alphabet) (low_digits 58 n n) ++ for_leading 0 (byte_at alphabet 0) value)

-- The loop over the bytes of the value.
unfoldable pub decode_number : List ℕ → ℕ → Option ℕ
unfolding alphabet index_of
decode_number [] n = some n
decode_number (c ∷ cs) n = elim (index_of c alphabet) [
  | none ↦ none
  | some i ↦ decode_number cs (n * 58 + i)
]

-- DecodeBase58BTC
unfoldable pub decode_base58 : List ℕ → Option (List ℕ)
unfolding decode_number big_bytes for_leading alphabet byte_at
decode_base58 [] = none
decode_base58 (c ∷ cs) = elim (decode_number (c ∷ cs) 0) [
  | none ↦ none
  | some n ↦ some (for_leading (byte_at alphabet 0) 0 (c ∷ cs) ++ big_bytes n)
]
