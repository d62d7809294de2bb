-- ===== src/Keys/Examples.antt =====
-- internal/didresolver/didkey.go and internal/didkey/didkey.go: base58btc at short values, a key, and
-- the theorems at them.
use vtafarm_api.Base.{ℕ, List, [], ◌∷◌, ◌++◌, none, some, ◌≡◌, ◌↔◌, refl, arith}
use vtafarm_api.Keys.Base58.{codes, encode_base58, decode_base58}
use vtafarm_api.Keys.DidKey.{resolve_authentication_key, from_public_key, did_key_prefix}
use vtafarm_api.Keys.RoundTrip.{encode_base58-iff-decode_base58}
use vtafarm_api.Keys.Canonical.{multikey, resolve_authentication_key-iff-from_public_key}

hello : encode_base58 (codes "Hello World!") ≡ codes "2NEpo7TZRRrLZSi2U"
unfolding encode_base58
hello = refl

zeros_kept : decode_base58 (codes "112") ≡ some (0 ∷ 0 ∷ 1 ∷ [])
unfolding decode_base58
zeros_kept = refl

not_in_alphabet : decode_base58 (codes "10") ≡ none
unfolding decode_base58
not_in_alphabet = refl

prefix_text : did_key_prefix ≡ codes "did:key:"
unfolding codes
prefix_text = refl

encode_base58-iff-decode_base58_example :
    (encode_base58 (0 ∷ 0 ∷ 1 ∷ []) ≡ codes "112")
    ↔ (decode_base58 (codes "112") ≡ some (0 ∷ 0 ∷ 1 ∷ []))
encode_base58-iff-decode_base58_example =
    encode_base58-iff-decode_base58 (0 ∷ 0 ∷ 1 ∷ []) (codes "112") (omega arith) (omega arith)

abbrev key : List ℕ
key =
    0 ∷ 1 ∷ 2 ∷ 3 ∷ 4 ∷ 5 ∷ 6 ∷ 7 ∷ 8 ∷ 9 ∷ 10 ∷ 11 ∷ 12 ∷ 13 ∷ 14 ∷ 15 ∷ 16 ∷ 17 ∷ 18 ∷ 19 ∷ 20
    ∷ 21 ∷ 22 ∷ 23 ∷ 24 ∷ 25 ∷ 26 ∷ 27 ∷ 28 ∷ 29 ∷ 30 ∷ 255 ∷ []

abbrev did : List ℕ
did = did_key_prefix ++ multikey key

made : from_public_key key ≡ some did
unfolding from_public_key multikey
made = refl

resolve_authentication_key-iff-from_public_key_example :
    (resolve_authentication_key did (did ++ b'#' ∷ multikey key) ≡ some key)
    ↔ ((from_public_key key ≡ some did) × (did ++ b'#' ∷ multikey key ≡ did ++ b'#' ∷ multikey key))
resolve_authentication_key-iff-from_public_key_example =
    resolve_authentication_key-iff-from_public_key did (did ++ b'#' ∷ multikey key) key
      (omega arith)
