-- ===== src/Webvh/Examples.antt =====
-- internal/webvh/log.go: a log of two entries, with simple functions in place of the hash and the
-- canonical form, and the theorems at it.
use vtafarm_api.Base.{
  ℕ, zero, suc, true, false, List, [], ◌∷◌, ◌++◌, any, Option, none, some, All, ◌≡◌, refl, inl, inr,
}
use vtafarm_api.Keys.Base58.{codes, encode_base58}
use vtafarm_api.Keys.DidKey.{did_key_prefix, same_bytes, resolve_authentication_key, base58_encode}
use vtafarm_api.Keys.Canonical.{multikey}
use vtafarm_api.Webvh.Result.{refused}
use vtafarm_api.Webvh.Json.{
  Text, Json, text, array, object, no_items, item, no_fields, field, get_field, has_only,
  unmarshal_elements, put_field,
}
use vtafarm_api.Webvh.Params.{
  Crypto, ParameterState, multibase_hash, has_duplicates, is_update_key, is_committed, check_method,
  apply_scid, apply_next_key_hashes, replace_update_keys, apply_update_keys, apply_portable,
  check_witness, check_watchers, check_ttl, apply_deactivated, apply_parameters,
}
use vtafarm_api.Webvh.Entry.{LogEntry, DataIntegrityProof, parse_version_id}
use vtafarm_api.Webvh.Log.{
  scid_from_did, proof_key_authorized, verify_entry_proof, signed_message, verify_entry_hash,
  hash_json, verify_genesis_scid, check_origin, check_entry, check_entries, validate_entries,
  decode_proof_value, proof_key, last_of,
}
use vtafarm_api.Webvh.Lines.{split_lines, is_blank}
use vtafarm_api.Webvh.Authority.{state_of, replay, allows, IsSignedBy, validate_entries-IsSignedBy}
use vtafarm_api.Webvh.Order.{IsNumbered, IsIncreasing, IsHashed, validate_entries_in_order}
use vtafarm_api.Webvh.Identity.{validate_entries_immovable}

-- The first bytes, filled with zeros.
abbrev pad : ℕ → List ℕ → List ℕ
pad zero bs = []
pad (suc n) [] = 0 ∷ pad n []
pad (suc n) (b ∷ bs) = b ∷ pad n bs

abbrev version_text : Option Json → List ℕ
version_text (some (text t)) = t
version_text other = []

-- The canonical form keeps the version id alone, and the hash its first 32 bytes.
abbrev crypto : Crypto
crypto = record {
  canonical = λ fs. some (version_text (get_field (codes "versionId") fs));
  canonical_replaced = λ scid fs. some (version_text (get_field (codes "versionId") fs));
  sha256 = pad 32;
  verify = λ key message signature. true;
  parse_time = λ t. some 5;
  folds = same_bytes;
}

abbrev scid : Text
scid = multibase_hash crypto (codes "{SCID}")

abbrev did : Text
did = codes "did:webvh:" ++ scid ++ codes ":a.example"

abbrev key : Text
key = multikey (pad 32 (1 ∷ 2 ∷ 3 ∷ []))

abbrev proof : DataIntegrityProof
proof = record {
  raw = no_fields;
  verification_method = did_key_prefix ++ key ++ b'#' ∷ key;
  proof_value = b'z' ∷ encode_base58 (pad 64 (9 ∷ []));
  created = none;
}

abbrev first_hash : Text
first_hash = multibase_hash crypto scid

abbrev document : Json
document = object (field (codes "id") (text did) no_fields)

abbrev genesis : LogEntry
genesis = record {
  raw = no_fields;
  version_id = codes "1-" ++ first_hash;
  version = 1;
  version_hash = first_hash;
  version_time = 10;
  parameters = field (codes "method") (text (codes "did:webvh:1.0")) (
      field (codes "scid") (text scid)
        (field (codes "updateKeys") (array (item (text key) no_items)) no_fields));
  state = document;
  state_id = did;
  proof = proof;
}

abbrev update : LogEntry
update = record genesis {
  version_id = codes "2-" ++ multibase_hash crypto (codes "1-" ++ first_hash);
  version = 2;
  version_hash = multibase_hash crypto (codes "1-" ++ first_hash);
  version_time = 20;
  parameters = no_fields;
}

program : Unit {0}
unfolding validate_entries check_entries check_entry scid_from_did apply_parameters get_field
    has_only check_method apply_scid apply_next_key_hashes apply_update_keys replace_update_keys
    has_duplicates is_update_key is_committed apply_portable check_witness check_watchers check_ttl
    apply_deactivated proof_key_authorized verify_entry_proof signed_message proof_key
    resolve_authentication_key decode_proof_value verify_entry_hash hash_json put_field check_origin
    verify_genesis_scid multikey any unmarshal_elements base58_encode state_of replay
program = tt

accepted : validate_entries crypto did (genesis ∷ update ∷ []) ≡ inr document
unfolding program
accepted = refl

-- An entry that is not later than the one before.
stopped_clock :
    validate_entries crypto did (genesis ∷ record update { version_time = 10 } ∷ [])
    ≡ inl (refused "versionTime is not strictly increasing")
unfolding program
stopped_clock = refl

not_json : split_lines (codes "a") ≡ codes "a" ∷ []
unfolding split_lines codes
not_json = refl

version_twelve : parse_version_id (codes "12-ab") ≡ inr (12, codes "ab")
unfolding parse_version_id codes
version_twelve = refl

version_with_zero : parse_version_id (codes "012-ab") ≡ inl (refused "invalid versionId number")
unfolding parse_version_id codes
version_with_zero = refl

blank_line : is_blank (codes " " ++ 0xe2 ∷ 0x80 ∷ 0xa8 ∷ []) ≡ true
unfolding is_blank codes
blank_line = refl

validate_entries-IsSignedBy_example :
    (s : ParameterState) × (state_of crypto (genesis ∷ []) ≡ some s)
    × ((k : Text) × (allows crypto s k ≡ true) × IsSignedBy crypto update k)
validate_entries-IsSignedBy_example =
    validate_entries-IsSignedBy crypto did genesis [] update [] document accepted

validate_entries_in_order_example :
    IsNumbered 1 (genesis ∷ update ∷ [])
    × IsIncreasing (genesis ∷ update ∷ [])
    × IsHashed crypto none (genesis ∷ update ∷ [])
    × ((s : Text) × (scid_from_did did ≡ some s)
        × All (λ (e : LogEntry). scid_from_did e.state_id ≡ some s) (genesis ∷ update ∷ []))
    × ((final : LogEntry) × (last_of crypto none (genesis ∷ update ∷ []) ≡ some final)
        × (final.state_id ≡ did)
        × (document ≡ final.state))
validate_entries_in_order_example =
    validate_entries_in_order crypto did (genesis ∷ update ∷ []) document accepted

abbrev first_state : ParameterState
first_state = record {
  scid = scid;
  update_keys = key ∷ [];
  next_key_hashes = [];
  pre_rotation = false;
  portable = false;
  deactivated = false;
}

first_state_lem : state_of crypto (genesis ∷ []) ≡ some first_state
unfolding program
first_state_lem = refl

validate_entries_immovable_example :
    All (λ (e : LogEntry). e.state_id ≡ did) (genesis ∷ update ∷ [])
validate_entries_immovable_example =
    validate_entries_immovable crypto did genesis (update ∷ []) document first_state accepted
      first_state_lem refl
