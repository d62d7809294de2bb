-- ===== src/Webvh/Params.antt =====
-- internal/webvh/log.go: the parameters of an entry and what they make of the state (applyParameters),
-- and the hashes and keys that they name.
use vtafarm_api.Base.{
  ℕ, Bool, true, false, not, ◌&&◌, ◌||◌, List, [], ◌∷◌, ◌++◌, Option, none, some, length, ◌==◌,
  is_some, if◌then◌else◌,
}
use vtafarm_api.Keys.Base58.{codes, encode_base58, decode_base58}
use vtafarm_api.Keys.DidKey.{same_bytes, did_key_prefix, resolve_authentication_key}
use vtafarm_api.Webvh.Result.{Result, ◌>>=◌, ◌>>◌, return, guard, or_refuse}
use vtafarm_api.Webvh.Json.{
  Text, Json, Fields, no_fields, field, contains, get_field, has_only, unmarshal_text,
  unmarshal_bool, unmarshal_object, unmarshal_u32, unmarshal_texts,
}

-- Hashing, signatures, canonical JSON and clock texts, which are code of libraries: the canonical JSON
-- of an object, also with every occurrence of a text replaced by the placeholder; SHA-256; the check
-- of an Ed25519 signature; the time of a canonical RFC 3339 text; the equality of names up to case.
pub record Crypto : Type 0 where
  pub canonical : Fields → Option (List ℕ)
  pub canonical_replaced : Text → Fields → Option (List ℕ)
  pub sha256 : List ℕ → List ℕ
  pub verify : List ℕ → List ℕ → List ℕ → Bool
  pub parse_time : Text → Option ℕ
  pub folds : Text → Text → Bool

-- parameterState
pub record ParameterState : Type 0 where
  pub scid : Text
  pub update_keys : List Text
  pub next_key_hashes : List Text
  pub pre_rotation : Bool
  pub portable : Bool
  pub deactivated : Bool

abbrev pub initial : ParameterState
initial = record {
  scid = [];
  update_keys = [];
  next_key_hashes = [];
  pre_rotation = false;
  portable = false;
  deactivated = false;
}

abbrev pub is_empty : {A : Type 0} → List A → Bool
is_empty [] = true
is_empty (x ∷ xs) = false

-- hasDuplicates
unfoldable pub has_duplicates_after : List Text → List Text → Bool
unfolding contains
has_duplicates_after seen [] = false
has_duplicates_after seen (v ∷ values) = contains seen v || has_duplicates_after (v ∷ seen) values

unfoldable pub has_duplicates : List Text → Bool
unfolding has_duplicates_after
has_duplicates values = has_duplicates_after [] values

-- parseSHA256Multihash succeeds.
unfoldable pub is_sha256_multihash : Text → Bool
unfolding decode_base58 encode_base58
is_sha256_multihash value = elim (decode_base58 value) [
  | none ↦ false
  | some decoded ↦
      same_bytes (encode_base58 decoded) value
      && (length decoded == 34 && same_bytes (first_two decoded) (0x12 ∷ 0x20 ∷ []))
]
  where
    first_two : List ℕ → List ℕ
    first_two [] = []
    first_two (a ∷ []) = a ∷ []
    first_two (a ∷ b ∷ rest) = a ∷ b ∷ []

-- decodeUpdateKey succeeds.
unfoldable pub is_update_key : Text → Bool
unfolding resolve_authentication_key
is_update_key value =
    let did = did_key_prefix ++ value in
    is_some (resolve_authentication_key did (did ++ b'#' ∷ value))

abbrev pub all_of : (Text → Bool) → List Text → Bool
all_of p [] = true
all_of p (x ∷ xs) = p x && all_of p xs

-- The names of the parameters.
abbrev pub parameter_names : List Text
parameter_names =
    codes "method"
    ∷ codes "scid"
    ∷ codes "updateKeys"
    ∷ codes "portable"
    ∷ codes "nextKeyHashes"
    ∷ codes "witness"
    ∷ codes "watchers"
    ∷ codes "deactivated"
    ∷ codes "ttl"
    ∷ []

unfoldable pub check_method : Bool → Option Json → Result (Unit {0})
check_method has_previous none = guard has_previous "genesis entry has no method"
check_method has_previous (some raw) = do
  method ← or_refuse (unmarshal_text [] raw) "unsupported DID method version"
  guard (same_bytes method (codes "did:webvh:1.0")) "unsupported DID method version"

unfoldable pub apply_scid : Bool → Option Json → ParameterState → Result ParameterState
apply_scid has_previous none current = do
  guard has_previous "genesis entry has no scid"
  return current
apply_scid has_previous (some raw) current = do
  guard (not has_previous) "invalid scid parameter"
  scid ← or_refuse (unmarshal_text current.scid raw) "invalid scid parameter"
  guard (not (is_empty scid)) "invalid scid parameter"
  return (record current { scid = scid })

unfoldable pub apply_next_key_hashes :
    ParameterState → Option Json → ParameterState → Result ParameterState
apply_next_key_hashes previous none current = do
  guard (not previous.pre_rotation) "nextKeyHashes must be present during pre-rotation"
  return current
apply_next_key_hashes previous (some raw) current = do
  hashes ← or_refuse (unmarshal_texts current.next_key_hashes raw) "invalid nextKeyHashes"
  guard (not (has_duplicates hashes)) "nextKeyHashes contains duplicates"
  guard (all_of is_sha256_multihash hashes) "nextKeyHashes contains an invalid SHA-256 multihash"
  return (record current { next_key_hashes = hashes; pre_rotation = not (is_empty hashes) })

module _ (crypto : Crypto) where
  -- hashMultibaseString, and the end of hashJSON.
  unfoldable pub multibase_hash : List ℕ → Text
  unfolding encode_base58
  multibase_hash bytes = encode_base58 (0x12 ∷ 0x20 ∷ crypto.sha256 bytes)

  unfoldable pub is_committed : List Text → Text → Bool
  unfolding contains multibase_hash
  is_committed hashes key = contains hashes (multibase_hash key)

  -- Keys that are not empty are new keys, which the previous hashes must allow under pre-rotation.
  unfoldable pub replace_update_keys :
      ParameterState → List Text → ParameterState → Result ParameterState
  replace_update_keys previous keys current = do
    guard (not (has_duplicates keys)) "updateKeys contains duplicates"
    guard (all_of is_update_key keys) "key is not a did:key"
    guard (not previous.pre_rotation || all_of (is_committed previous.next_key_hashes) keys)
        "updateKey was not pre-committed"
    return (record current { update_keys = keys })

  -- An empty list of keys changes nothing, where it is allowed.
  unfoldable pub keep_update_keys : Bool → ParameterState → ParameterState → Result ParameterState
  keep_update_keys has_previous previous current = do
    guard (has_previous && not previous.pre_rotation) "updateKeys cannot be empty here"
    return current

  unfoldable pub apply_update_keys :
      Bool → ParameterState → Option Json → ParameterState → Result ParameterState
  unfolding replace_update_keys keep_update_keys
  apply_update_keys has_previous previous none current = do
    guard (has_previous && not previous.pre_rotation) "updateKeys must be present here"
    return current
  apply_update_keys has_previous previous (some raw) current = do
    keys ← or_refuse (unmarshal_texts [] raw) "invalid updateKeys"
    if is_empty keys
        then keep_update_keys has_previous previous current
        else replace_update_keys previous keys current

unfoldable pub apply_portable : Bool → Option Json → ParameterState → Result ParameterState
apply_portable has_previous none current = return current
apply_portable has_previous (some raw) current = do
  portable ← or_refuse (unmarshal_bool false raw) "portable may only be enabled in genesis"
  guard (not (has_previous && portable)) "portable may only be enabled in genesis"
  return (record current { portable = portable })

unfoldable pub check_witness : Option Json → Result (Unit {0})
check_witness none = return tt
check_witness (some raw) = do
  witness ← or_refuse (unmarshal_object raw) "invalid witness parameter"
  guard (is_none_of witness) "witnessed DID logs are not supported"
  where
    is_none_of : Fields → Bool
    is_none_of no_fields = true
    is_none_of (field n v rest) = false

unfoldable pub check_watchers : Option Json → Result (Unit {0})
check_watchers none = return tt
check_watchers (some raw) = guard (is_some (unmarshal_texts [] raw)) "invalid watchers"

unfoldable pub check_ttl : Option Json → Result (Unit {0})
check_ttl none = return tt
check_ttl (some raw) = guard (is_some (unmarshal_u32 raw)) "invalid ttl"

unfoldable pub apply_deactivated : Bool → Option Json → ParameterState → Result ParameterState
apply_deactivated has_previous none current = return current
apply_deactivated has_previous (some raw) current = do
  deactivated ← or_refuse (unmarshal_bool false raw) "invalid deactivated parameter"
  guard (has_previous || not deactivated) "invalid deactivated parameter"
  return (record current { deactivated = deactivated })

-- applyParameters
unfoldable pub apply_parameters : Crypto → Fields → ParameterState → Bool → Result ParameterState
apply_parameters crypto raw previous has_previous = do
  guard (has_only parameter_names raw) "unknown DID method parameter"
  check_method has_previous (get_field (codes "method") raw)
  named ← apply_scid has_previous (get_field (codes "scid") raw) previous
  hashed ← apply_next_key_hashes previous (get_field (codes "nextKeyHashes") raw) named
  keyed ← apply_update_keys crypto has_previous previous (get_field (codes "updateKeys") raw) hashed
  guard (not (is_empty keyed.update_keys)) "no active update keys"
  ported ← apply_portable has_previous (get_field (codes "portable") raw) keyed
  check_witness (get_field (codes "witness") raw)
  check_watchers (get_field (codes "watchers") raw)
  check_ttl (get_field (codes "ttl") raw)
  apply_deactivated has_previous (get_field (codes "deactivated") raw) ported
