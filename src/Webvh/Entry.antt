-- ===== src/Webvh/Entry.antt =====
-- internal/webvh/log.go: the parsing of an entry and its proof (parseLogEntry, parseProof).
use vtafarm_api.Base.{
  ℕ, zero, suc, ◌+◌, ◌-◌, ◌*◌, Bool, true, false, not, ◌&&◌, ◌||◌, List, [], ◌∷◌, Option, none,
  some, ltb, ◌==◌, if◌then◌else◌,
}
use vtafarm_api.Keys.Base58.{codes, reverse, low_digits}
use vtafarm_api.Keys.DidKey.{same_bytes}
use vtafarm_api.Webvh.Result.{Result, ◌>>=◌, ◌>>◌, return, guard, or_refuse}
use vtafarm_api.Webvh.Json.{
  Text, Json, object, Fields, get_field, has_only, unmarshal_text, unmarshal_object,
  unmarshal_items, unmarshal_struct, null, boolean, integer, number_text, text, array,
}
use vtafarm_api.Webvh.Params.{Crypto, is_empty}

-- dataIntegrityProof
pub record DataIntegrityProof : Type 0 where
  pub raw : Fields
  pub verification_method : Text
  pub proof_value : Text
  pub created : Option ℕ

-- logEntry
pub record LogEntry : Type 0 where
  pub raw : Fields
  pub version_id : Text
  pub version : ℕ
  pub version_hash : Text
  pub version_time : ℕ
  pub parameters : Fields
  pub state : Json
  pub state_id : Text
  pub proof : DataIntegrityProof

-- strings.Cut at a text of one byte: `none` where it is not there.
unfoldable pub cut : ℕ → Text → Option (Text × Text)
cut sep [] = none
cut sep (c ∷ s) =
    let later = cut sep s in
    if c == sep then some ([], s) else elim later [ none ↦ none | some p ↦ some (c ∷ p.0, p.1) ]

abbrev pub max_u32 : ℕ
max_u32 = 4_294_967_295

-- The loop of strconv.ParseUint with base 10 and 32 bits, its error dropped: 0 after a byte that is
-- no digit, the greatest value after an overflow.
unfoldable pub parse_digits : ℕ → Text → ℕ
parse_digits n [] = n
parse_digits n (c ∷ s) = elim (ltb c b'0' || ltb b'9' c) [
  | true ↦ 0
  | false ↦ elim (ltb max_u32 (n * 10 + (c - b'0'))) [
    | true ↦ max_u32
    | false ↦ parse_digits (n * 10 + (c - b'0')) s
  ]
]

unfoldable pub parse_uint : Text → ℕ
unfolding parse_digits
parse_uint [] = 0
parse_uint (c ∷ s) = parse_digits 0 (c ∷ s)

unfoldable pub decimal_digits : List ℕ → Text
decimal_digits [] = []
decimal_digits (d ∷ ds) = (d + b'0') ∷ decimal_digits ds

-- strconv.FormatUint with base 10
unfoldable pub format_uint : ℕ → Text
unfolding decimal_digits low_digits
format_uint zero = b'0' ∷ []
format_uint (suc n) = decimal_digits (reverse (low_digits 10 (suc n) (suc n)))

-- requiredJSON
abbrev pub required : {A : Type 0} → (Json → Option A) → Text → Fields → Option A
required unmarshal name fields = elim (get_field name fields) [
  | none ↦ none
  | some raw ↦ unmarshal raw
]

abbrev pub required_text : Text → Fields → Option Text
required_text = required (unmarshal_text [])

abbrev pub is_text : Option Text → Text → Bool
is_text none t = false
is_text (some s) t = same_bytes s t

-- The top of a document, where it is an object.
abbrev pub fields_of : Json → Option Fields
fields_of (object fs) = some fs
fields_of null = none
fields_of (boolean b) = none
fields_of (integer n) = none
fields_of (number_text t) = none
fields_of (text t) = none
fields_of (array xs) = none

abbrev pub proof_names : List Text
proof_names =
    codes "type"
    ∷ codes "cryptosuite"
    ∷ codes "created"
    ∷ codes "verificationMethod"
    ∷ codes "proofPurpose"
    ∷ codes "proofValue"
    ∷ codes "@context"
    ∷ []

abbrev pub entry_names : List Text
entry_names =
    codes "versionId"
    ∷ codes "versionTime"
    ∷ codes "parameters"
    ∷ codes "state"
    ∷ codes "proof"
    ∷ []

-- The number and the hash of a version id.
unfoldable pub parse_version_id : Text → Result (ℕ × Text)
unfolding cut parse_uint format_uint
parse_version_id version_id = do
  parts ← or_refuse (cut b'-' version_id) "invalid versionId"
  guard (not (is_empty parts.1)) "invalid versionId"
  let version = parse_uint parts.0
  guard (not (version == 0) && same_bytes (format_uint version) parts.0) "invalid versionId number"
  return (version, parts.1)

-- The one element of a list.
abbrev pub only_item : List Json → Option Json
only_item [] = none
only_item (x ∷ []) = some x
only_item (x ∷ y ∷ rest) = none

unfoldable pub single_proof : Option (List Json) → Option Json
single_proof none = none
single_proof (some proofs) = only_item proofs

module _ (crypto : Crypto) (now clock_skew : ℕ) where
  -- The time of a canonical text, in units since the zero time, if it is not in the future.
  unfoldable pub past_time : Text → Option ℕ
  past_time t = elim (crypto.parse_time t) [
    | none ↦ none
    | some at ↦ if ltb (now + clock_skew) at then none else some at
  ]

  unfoldable pub parse_created : Option Json → Result (Option ℕ)
  unfolding past_time
  parse_created none = return none
  parse_created (some raw) = do
    created ← or_refuse (unmarshal_text [] raw) "proof created is invalid"
    at ← or_refuse (past_time created) "proof created is invalid or in the future"
    return (some at)

  -- parseProof
  unfoldable pub parse_proof : Json → Result DataIntegrityProof
  unfolding parse_created has_only get_field
  parse_proof value = do
    raw ← or_refuse (fields_of value) "proof is not valid I-JSON"
    guard (has_only proof_names raw) "proof contains an unknown field"
    guard
        (is_text (required_text (codes "type") raw) (codes "DataIntegrityProof")
          && is_text (required_text (codes "cryptosuite") raw) (codes "eddsa-jcs-2022")
          && is_text (required_text (codes "proofPurpose") raw) (codes "assertionMethod"))
        "proof has an invalid required field"
    method ←
        or_refuse (required_text (codes "verificationMethod") raw)
          "proof has an invalid required field"
    value ← or_refuse (required_text (codes "proofValue") raw) "proof has an invalid required field"
    created ← parse_created (get_field (codes "created") raw)
    return
        (record { raw = raw; verification_method = method; proof_value = value; created = created })

  -- The id of the document, in a struct with one field.
  unfoldable pub document_id : Json → Option Text
  unfolding unmarshal_struct
  document_id state = elim (unmarshal_struct crypto.folds (codes "id") unmarshal_text [] state) [
    | none ↦ none
    | some id ↦ if is_empty id then none else some id
  ]

  -- parseLogEntry; `none` is a line that is not I-JSON.
  unfoldable pub parse_log_entry : Option Json → Result LogEntry
  unfolding parse_proof parse_version_id single_proof document_id has_only get_field
  parse_log_entry line = do
    value ← or_refuse line "log entry is not valid I-JSON"
    raw ← or_refuse (fields_of value) "log entry is not an object"
    guard (has_only entry_names raw) "log entry contains an unknown field"
    version_id ← or_refuse (required_text (codes "versionId") raw) "missing or invalid versionId"
    version ← parse_version_id version_id
    time_text ← or_refuse (required_text (codes "versionTime") raw) "missing or invalid versionTime"
    version_time ← or_refuse (past_time time_text) "invalid or future versionTime"
    guard (not (version_time == 0)) "invalid or future versionTime"
    parameters ←
        or_refuse (required unmarshal_object (codes "parameters") raw)
          "missing or invalid parameters"
    state ← or_refuse (get_field (codes "state") raw) "missing or invalid state"
    state_id ← or_refuse (document_id state) "DID document has no id"
    proof_value ←
        or_refuse (single_proof (required unmarshal_items (codes "proof") raw))
          "log entry must contain exactly one proof"
    proof ← parse_proof proof_value
    return (record {
      raw = raw;
      version_id = version_id;
      version = version.0;
      version_hash = version.1;
      version_time = version_time;
      parameters = parameters;
      state = state;
      state_id = state_id;
      proof = proof;
    })
