-- ===== src/Keys/DidKey.antt =====
-- internal/didresolver/didkey.go and internal/didkey/didkey.go: a did:key and its Ed25519 key. Texts
-- and keys are lists of bytes. The texts of the errors are left out: their callers do not read them.
use vtafarm_api.Base.{
  ℕ, Bool, true, false, not, ◌&&◌, ◌||◌, List, [], ◌∷◌, ◌++◌, map, Option, none, some, length, ltb,
  ◌==◌, if◌then◌else◌,
}
use vtafarm_api.Keys.Base58.{
  alphabet, byte_at, reverse, low_digits, number, for_leading, encode_base58, decode_base58,
}

abbrev pub same_bytes : List ℕ → List ℕ → Bool
same_bytes [] [] = true
same_bytes [] (y ∷ ys) = false
same_bytes (x ∷ xs) [] = false
same_bytes (x ∷ xs) (y ∷ ys) = x == y && same_bytes xs ys

-- strings.CutPrefix
unfoldable pub cut_prefix : List ℕ → List ℕ → Option (List ℕ)
cut_prefix [] s = some s
cut_prefix (p ∷ ps) [] = none
cut_prefix (p ∷ ps) (c ∷ s) = let rest = cut_prefix ps s in if p == c then rest else none

-- "did:key:"
abbrev pub did_key_prefix : List ℕ
did_key_prefix = 100 ∷ 105 ∷ 100 ∷ 58 ∷ 107 ∷ 101 ∷ 121 ∷ 58 ∷ []

-- The decoded value is a key with the prefix of Ed25519, and its text is the canonical one.
unfoldable pub key_of : List ℕ → Option (List ℕ) → Option (List ℕ)
unfolding encode_base58
key_of text none = none
key_of text (some []) = none
key_of text (some (a ∷ [])) = none
key_of text (some (a ∷ b ∷ key)) =
    if not (same_bytes (encode_base58 (a ∷ b ∷ key)) text)
    then none
    else if not (length (a ∷ b ∷ key) == 34) || not (a == 0xed) || not (b == 0x01)
    then none
    else some key

-- decodeEd25519Multikey
unfoldable pub decode_ed25519_multikey : List ℕ → Option (List ℕ)
unfolding key_of decode_base58
decode_ed25519_multikey [] = none
decode_ed25519_multikey (z ∷ text) =
    if ltb (length (z ∷ text)) 2 || not (z == b'z') then none else key_of text (decode_base58 text)

abbrev pub with_multibase : List ℕ → Option (List ℕ) → Option (List ℕ × List ℕ)
with_multibase multibase none = none
with_multibase multibase (some key) = some (key, multibase)

-- ed25519KeyFromDIDKey
unfoldable pub ed25519_key_from_did_key : List ℕ → Option (List ℕ × List ℕ)
unfolding cut_prefix decode_ed25519_multikey
ed25519_key_from_did_key did = elim (cut_prefix did_key_prefix did) [
  | none ↦ none
  | some multibase ↦ with_multibase multibase (decode_ed25519_multikey multibase)
]

-- ResolveAuthenticationKey
unfoldable pub resolve_authentication_key : List ℕ → List ℕ → Option (List ℕ)
unfolding ed25519_key_from_did_key
resolve_authentication_key did kid = elim (ed25519_key_from_did_key did) [
  | none ↦ none
  | some p ↦ if not (same_bytes kid (did ++ b'#' ∷ p.1)) then none else some p.0
]

-- base58Encode of internal/didkey, which is written like EncodeBase58BTC.
unfoldable pub base58_encode : List ℕ → List ℕ
unfolding alphabet byte_at low_digits number for_leading
base58_encode value =
    let n = number 256 0 value in
    reverse (map (byte_at alphabet) (low_digits 58 n n) ++ for_leading 0 (byte_at alphabet 0) value)

-- FromPublicKey
unfoldable pub from_public_key : List ℕ → Option (List ℕ)
unfolding base58_encode
from_public_key key =
    if not (length key == 32)
    then none
    else some (did_key_prefix ++ b'z' ∷ base58_encode (0xed ∷ 0x01 ∷ key))
