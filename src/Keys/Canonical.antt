-- ===== src/Keys/Canonical.antt =====
-- internal/didresolver/didkey.go and internal/didkey/didkey.go: the did:key made from a key is the only
-- one that resolves to it.
use vtafarm_api.Base.{
  ℕ, suc, true, false, List, [], ◌∷◌, ◌++◌, Option, none, some, length, ltb, ◌==◌, ◌≡◌, refl, sym,
  ap, ◌∙◌, arith, ◌↔◌, Bool-cases, Option-cases, inl, inr,
}
use mathlib.Core.Path.{subst}
use mathlib.Core.Option.{some-injective}
use vtafarm_api.Keys.Base58.{encode_base58, decode_base58}
use vtafarm_api.Keys.DidKey.{
  same_bytes, cut_prefix, did_key_prefix, key_of, decode_ed25519_multikey,
  resolve_authentication_key, base58_encode, from_public_key,
}
use vtafarm_api.Keys.RoundTrip.{AreBytes, encode_base58-iff-decode_base58}

pub same_bytes_sound : (xs ys : List ℕ) → same_bytes xs ys ≡ true → xs ≡ ys
same_bytes_sound [] [] h = refl
same_bytes_sound [] (y ∷ ys) h = cc h
same_bytes_sound (x ∷ xs) [] h = cc h
same_bytes_sound (x ∷ xs) (y ∷ ys) h =
    let tail = same_bytes_sound xs ys (ground (arith, h)) in
    let head : x ≡ y = ground (arith, h) in cc (head, tail)

pub same_bytes_refl : (xs : List ℕ) → same_bytes xs xs ≡ true
same_bytes_refl [] = refl
same_bytes_refl (x ∷ xs) = ground (arith, same_bytes_refl xs)

cut_prefix-append : (p s : List ℕ) → cut_prefix p (p ++ s) ≡ some s
unfolding cut_prefix
cut_prefix-append [] s = refl
cut_prefix-append (c ∷ p) s = ground (arith, cut_prefix-append p s)

cut_prefix-some : (p t s : List ℕ) → cut_prefix p t ≡ some s → t ≡ p ++ s
unfolding cut_prefix
cut_prefix-some [] t s h = some-injective t s h
cut_prefix-some (c ∷ p) [] s h = cc h
cut_prefix-some (c ∷ p) (d ∷ t) s h = elim (Bool-cases (c == d)) [
  | inl e ↦
      let tail = cut_prefix-some p t s (ground (arith, h, e)) in
      let head : d ≡ c = ground (arith, e) in cc (head, tail)
  | inr e ↦ ground (arith, h, e)
]

base58_encode-eq : (v : List ℕ) → base58_encode v ≡ encode_base58 v
unfolding base58_encode encode_base58
base58_encode-eq v = refl

-- The bytes that are encoded for a key.
abbrev prefixed : List ℕ → List ℕ
prefixed key = 0xed ∷ 0x01 ∷ key

key_of-some :
    (text : List ℕ) (decoded : Option (List ℕ)) (key : List ℕ)
    → key_of text decoded ≡ some key
    → (decoded ≡ some (prefixed key)) × (length key ≡ 32)
unfolding key_of
key_of-some text none key h = cc h
key_of-some text (some []) key h = cc h
key_of-some text (some (a ∷ [])) key h = cc h
key_of-some text (some (a ∷ b ∷ k)) key h = ground (arith, h)

key_of-prefixed :
    (text key : List ℕ)
    → length key ≡ 32
    → same_bytes (encode_base58 (prefixed key)) text ≡ true
    → key_of text (some (prefixed key)) ≡ some key
unfolding key_of
key_of-prefixed text key n same = ground (arith, n, same)

prefixed-AreBytes : (key : List ℕ) → AreBytes key → AreBytes (prefixed key)
prefixed-AreBytes key h = (omega arith, (omega arith, h))

-- The multibase text of a key.
unfoldable pub multikey : List ℕ → List ℕ
multikey key = b'z' ∷ base58_encode (prefixed key)

decode_ed25519_multikey-some :
    (m key : List ℕ)
    → AreBytes key
    → decode_ed25519_multikey m ≡ some key
    → (length key ≡ 32) × (m ≡ multikey key)
unfolding decode_ed25519_multikey multikey
decode_ed25519_multikey-some [] key h e = cc e
decode_ed25519_multikey-some (z ∷ text) key h e =
    let (decoded, long) = key_of-some text (decode_base58 text) key (ground (arith, e)) in
    let first : z ≡ b'z' = ground (arith, e) in
    let same =
      (encode_base58-iff-decode_base58 (prefixed key) text (prefixed-AreBytes key h)
          (omega arith)).1
        decoded in
    (long, cc (first, same, base58_encode-eq (prefixed key)))

decode_ed25519_multikey_step :
    (text key : List ℕ)
    → decode_base58 text ≡ some (prefixed key)
    → key_of text (some (prefixed key)) ≡ some key
    → decode_ed25519_multikey (b'z' ∷ text) ≡ some key
unfolding decode_ed25519_multikey
decode_ed25519_multikey_step [] key d r = cc d
decode_ed25519_multikey_step (c ∷ cs) key d r =
    let long : ltb (suc (suc (length cs))) 2 ≡ false = ground arith in ground (arith, long, d, r)

decode_ed25519_multikey-multikey :
    (key : List ℕ)
    → AreBytes key
    → length key ≡ 32
    → decode_ed25519_multikey (multikey key) ≡ some key
unfolding multikey
decode_ed25519_multikey-multikey key h long =
    let text = encode_base58 (prefixed key) in
    let decoded =
      (encode_base58-iff-decode_base58 (prefixed key) text (prefixed-AreBytes key h)
          (omega arith)).0
        refl in
    ap (λ t. decode_ed25519_multikey (b'z' ∷ t)) (base58_encode-eq (prefixed key))
    ∙ decode_ed25519_multikey_step text key decoded
        (key_of-prefixed text key long (same_bytes_refl text))

from_public_key-eq :
    (key : List ℕ) → length key ≡ 32 → from_public_key key ≡ some (did_key_prefix ++ multikey key)
unfolding from_public_key multikey
from_public_key-eq key h = ground (arith, h)

from_public_key-length : (key did : List ℕ) → from_public_key key ≡ some did → length key ≡ 32
unfolding from_public_key
from_public_key-length key did h = ground (arith, h)

resolve-some :
    (did kid key : List ℕ)
    → resolve_authentication_key did kid ≡ some key
    → (multibase : List ℕ) × (cut_prefix did_key_prefix did ≡ some multibase)
      × (decode_ed25519_multikey multibase ≡ some key)
      × (kid ≡ did ++ b'#' ∷ multibase)
unfolding resolve_authentication_key
resolve-some did kid key h = elim (Option-cases (cut_prefix did_key_prefix did)) [
  | inl e ↦ ground (arith, h, e)
  | inr (m, e) ↦ elim (Option-cases (decode_ed25519_multikey m)) [
    | inl d ↦ ground (arith, h, e, d)
    | inr (k, d) ↦ elim (Bool-cases (same_bytes kid (did ++ b'#' ∷ m))) [
      | inl s ↦ (m, e, ground (arith, h, e, d, s), same_bytes_sound kid (did ++ b'#' ∷ m) s)
      | inr s ↦ ground (arith, h, e, d, s)
    ]
  ]
]

resolve-here :
    (did m key : List ℕ)
    → cut_prefix did_key_prefix did ≡ some m
    → decode_ed25519_multikey m ≡ some key
    → resolve_authentication_key did (did ++ b'#' ∷ m) ≡ some key
unfolding resolve_authentication_key
resolve-here did m key e d = ground (arith, e, d, same_bytes_refl (did ++ b'#' ∷ m))

-- Modelling internal/didresolver/didkey.go and internal/didkey/didkey.go: for a key that is a list of
-- bytes, ResolveAuthenticationKey gives the key for a DID and a key id exactly if FromPublicKey makes
-- the DID from the key and the key id is the DID, `#` and the DID's part after `did:key:`.
pub resolve_authentication_key-iff-from_public_key :
    (did kid key : List ℕ)
    → AreBytes key
    → (resolve_authentication_key did kid ≡ some key)
      ↔ ((from_public_key key ≡ some did) × (kid ≡ did ++ b'#' ∷ multikey key))
resolve_authentication_key-iff-from_public_key did kid key h = (
  λ r.
      let (m, cut, decoded, id) = resolve-some did kid key r in
      let (long, same) = decode_ed25519_multikey-some m key h decoded in
      let whole : did ≡ did_key_prefix ++ multikey key =
        cut_prefix-some did_key_prefix did m cut ∙ ap (λ t. did_key_prefix ++ t) same in
      (
        from_public_key-eq key long ∙ ap (λ t. some t) (sym whole),
        id ∙ ap (λ t. did ++ b'#' ∷ t) same,
      ),
  λ p.
      let long = from_public_key-length key did p.0 in
      let whole : did_key_prefix ++ multikey key ≡ did =
        some-injective (did_key_prefix ++ multikey key) did
          (sym (from_public_key-eq key long) ∙ p.0) in
      ap (resolve_authentication_key did) p.1
      ∙ resolve-here did (multikey key) key
          (subst (λ d. cut_prefix did_key_prefix d ≡ some (multikey key)) whole
            (cut_prefix-append did_key_prefix (multikey key)))
          (decode_ed25519_multikey-multikey key h long),
)
