-- ===== src/Webvh/Log.antt =====
-- internal/webvh/log.go: the checks of an entry against the one before, and the loop over the log
-- (validateLog). A clock skew is not negative here; the code refuses a negative one.
use vtafarm_api.Base.{
  ℕ, suc, Bool, true, false, not, ◌&&◌, ◌||◌, List, [], ◌∷◌, ◌++◌, Option, none, some, ltb, ◌==◌,
  length, is_some, if◌then◌else◌,
}
use vtafarm_api.Keys.Base58.{codes, encode_base58, decode_base58}
use vtafarm_api.Keys.DidKey.{same_bytes, cut_prefix, did_key_prefix, resolve_authentication_key}
use vtafarm_api.Webvh.Result.{Result, ◌>>=◌, ◌>>◌, return, guard, or_refuse, wrap, at_version}
use vtafarm_api.Webvh.Json.{
  Text, Json, text, Fields, contains, get_field, remove_field, put_field, unmarshal_text,
  unmarshal_texts, unmarshal_struct,
}
use vtafarm_api.Webvh.Params.{
  Crypto, ParameterState, initial, is_empty, is_sha256_multihash, multibase_hash, apply_parameters,
}
use vtafarm_api.Webvh.Entry.{LogEntry, cut}

abbrev placeholder : Text
placeholder = codes "{SCID}"

-- The part of a DID before the first colon, and not empty.
unfoldable pub before_colon : Text → Option Text
unfolding cut
before_colon rest = elim (cut b':' rest) [
  | none ↦ none
  | some p ↦ if is_empty p.0 then none else some p.0
]

-- scidFromDID
unfoldable pub scid_from_did : Text → Option Text
unfolding cut_prefix before_colon is_sha256_multihash
scid_from_did did = elim (cut_prefix (codes "did:webvh:") did) [
  | none ↦ none
  | some rest ↦ elim (before_colon rest) [
    | none ↦ none
    | some scid ↦ if is_sha256_multihash scid then some scid else none
  ]
]

-- The key of a verification method that repeats it after `#`; the texts are the DID and the fragment.
unfoldable pub method_key : Text × Text → Option Text
unfolding cut_prefix
method_key p = elim (cut_prefix did_key_prefix p.0) [
  | none ↦ none
  | some key ↦ if same_bytes key p.1 then some p.1 else none
]

unfoldable pub proof_key : Text → Option Text
unfolding cut method_key
proof_key verification_method = elim (cut b'#' verification_method) [
  | none ↦ none
  | some p ↦ method_key p
]

-- proofKeyAuthorized
unfoldable pub proof_key_authorized : Text → List Text → Bool
unfolding proof_key contains
proof_key_authorized verification_method keys = elim (proof_key verification_method) [
  | none ↦ false
  | some key ↦ contains keys key
]

-- decodeProofValue
unfoldable pub decode_proof_value : Text → Option (List ℕ)
unfolding decode_base58 encode_base58
decode_proof_value [] = none
decode_proof_value (z ∷ value) = if not (z == b'z') then none else elim (decode_base58 value) [
  | none ↦ none
  | some decoded ↦ if same_bytes (encode_base58 decoded) value then some decoded else none
]

abbrev pub scid_parameter : Fields → Text
scid_parameter parameters = elim (get_field (codes "scid") parameters) [
  | none ↦ []
  | some raw ↦ elim (unmarshal_text [] raw) [ none ↦ [] | some scid ↦ scid ]
]

module _ (crypto : Crypto) where
  -- The DID of a verification method.
  abbrev pub did_of : Text → Text
  did_of verification_method = elim (cut b'#' verification_method) [ none ↦ [] | some p ↦ p.0 ]

  -- What is signed: the digests of the proof without its value and of the entry without its proof.
  unfoldable pub signed_message : LogEntry → Result (List ℕ)
  signed_message entry = do
    proof ←
        or_refuse (crypto.canonical (remove_field (codes "proofValue") entry.proof.raw))
          "canonicalize proof config"
    document ←
        or_refuse (crypto.canonical (remove_field (codes "proof") entry.raw))
          "canonicalize log entry"
    return (crypto.sha256 proof ++ crypto.sha256 document)

  -- verifyEntryProof
  unfoldable pub verify_entry_proof : LogEntry → Result (Unit {0})
  verify_entry_proof entry = do
    message ← signed_message entry
    guard (is_some (proof_key entry.proof.verification_method))
        "proof verificationMethod is not a canonical did:key"
    public_key ←
        or_refuse
          (resolve_authentication_key (did_of entry.proof.verification_method)
            entry.proof.verification_method)
          "resolve log proof key"
    signature ←
        or_refuse (decode_proof_value entry.proof.proof_value)
          "log proof signature verification failed"
    guard (length signature == 64 && crypto.verify public_key message signature)
        "log proof signature verification failed"

  -- hashJSON
  unfoldable pub hash_json : Fields → Option Text
  unfolding multibase_hash
  hash_json fields = elim (crypto.canonical fields) [
    | none ↦ none
    | some bytes ↦ some (multibase_hash crypto bytes)
  ]

  -- The version id that the hash of an entry stands on: the one before, or the SCID of the log.
  abbrev pub hashed_over : Option LogEntry → LogEntry → Text
  hashed_over none entry = scid_parameter entry.parameters
  hashed_over (some previous) entry = previous.version_id

  -- The entry without its proof, under another version id.
  abbrev pub unsigned_entry : Text → LogEntry → Fields
  unsigned_entry version_id entry =
      put_field (codes "versionId") (text version_id) (remove_field (codes "proof") entry.raw)

  -- verifyEntryHash
  unfoldable pub verify_entry_hash : LogEntry → Option LogEntry → Result (Unit {0})
  verify_entry_hash entry previous = do
    hash ←
        or_refuse (hash_json (unsigned_entry (hashed_over previous entry) entry))
          "versionId hash does not match log entry"
    guard (same_bytes hash entry.version_hash) "versionId hash does not match log entry"

  -- verifyGenesisSCID
  unfoldable pub verify_genesis_scid : LogEntry → Result (Unit {0})
  verify_genesis_scid entry = do
    raw ← or_refuse (get_field (codes "scid") entry.parameters) "invalid genesis scid"
    scid ← or_refuse (unmarshal_text [] raw) "invalid genesis scid"
    bytes ←
        or_refuse (crypto.canonical_replaced scid (unsigned_entry placeholder entry))
          "genesis entry is not valid I-JSON"
    guard (same_bytes (multibase_hash crypto bytes) scid) "genesis SCID does not match log entry"

  -- stateAlsoKnownAs
  unfoldable pub state_also_known_as : Json → Text → Bool
  unfolding unmarshal_struct contains
  state_also_known_as state wanted =
      elim (unmarshal_struct crypto.folds (codes "alsoKnownAs") unmarshal_texts [] state) [
        | none ↦ false
        | some names ↦ contains names wanted
      ]

  -- The keys that may sign an entry: its own under pre-rotation and in the genesis entry, else those
  -- of the state before.
  abbrev pub authorized_keys : Option LogEntry → ParameterState → ParameterState → List Text
  authorized_keys none before active = active.update_keys
  authorized_keys (some previous) before active =
      if before.pre_rotation then active.update_keys else before.update_keys

  abbrev pub is_later : Option LogEntry → LogEntry → Bool
  is_later none entry = true
  is_later (some previous) entry = ltb previous.version_time entry.version_time

  abbrev pub is_scid_of : Text → Text → Bool
  is_scid_of scid did = elim (scid_from_did did) [ none ↦ false | some s ↦ same_bytes s scid ]

  -- The SCID of a genesis entry, or a move of the DID.
  unfoldable pub check_origin : Option LogEntry → ParameterState → LogEntry → Result (Unit {0})
  check_origin none active entry = verify_genesis_scid entry
  check_origin (some previous) active entry =
      guard
        (same_bytes entry.state_id previous.state_id
          || active.portable && state_also_known_as entry.state previous.state_id)
        "DID move does not satisfy portability requirements"

  -- The body of the loop of validateLog: the state after the entry.
  unfoldable pub check_entry :
      Text → ℕ → Option LogEntry → ParameterState → LogEntry → Result ParameterState
  check_entry requested_scid index previous before entry = do
    guard (entry.version == suc index) "versionId sequence is not contiguous"
    guard (is_scid_of requested_scid entry.state_id)
        "DID document SCID does not match requested DID"
    guard (is_later previous entry) "versionTime is not strictly increasing"
    guard (not before.deactivated) "DID log has entries after deactivation"
    active ←
        wrap (at_version entry.version)
          (apply_parameters crypto entry.parameters before (is_some previous))
    guard (same_bytes active.scid requested_scid) "parameters.scid does not match requested DID"
    guard
        (proof_key_authorized entry.proof.verification_method
          (authorized_keys previous before active))
        "log proof key is not authorized"
    verify_entry_proof entry
    verify_entry_hash entry previous
    check_origin previous active entry
    return active

  -- The loop of validateLog: the last state, and whether some entry names the requested DID.
  unfoldable pub check_entries :
      Text
      → Text
      → ℕ
      → Option LogEntry
      → ParameterState
      → Bool
      → List LogEntry
      → Result (ParameterState × Bool)
  check_entries did scid index previous active matched [] = return (active, matched)
  check_entries did scid index previous active matched (entry ∷ entries) = do
    next ← check_entry scid index previous active entry
    check_entries did scid (suc index) (some entry) next (matched || same_bytes entry.state_id did)
        entries

  abbrev pub last_of : Option LogEntry → List LogEntry → Option LogEntry
  last_of previous [] = previous
  last_of previous (entry ∷ entries) = last_of (some entry) entries

  -- validateLog on the parsed entries.
  unfoldable pub validate_entries : Text → List LogEntry → Result Json
  validate_entries did entries = do
    scid ← or_refuse (scid_from_did did) "not a did:webvh DID with a SCID"
    final ← or_refuse (last_of none entries) "empty DID log"
    result ← check_entries did scid 0 none initial false entries
    guard (result.1 && same_bytes final.state_id did)
        "requested DID is not the current DID document id"
    guard (not result.0.deactivated) "DID is deactivated"
    return final.state
