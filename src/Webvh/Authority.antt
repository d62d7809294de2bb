-- ===== src/Webvh/Authority.antt =====
-- internal/webvh/log.go: every entry after the first of an accepted log is signed with a key that the
-- state before it allows.
use vtafarm_api.Base.{
  ℕ, suc, Bool, true, false, ◌||◌, List, [], ◌∷◌, ◌++◌, any, Option, none, some, if◌then◌else◌, ◌≡◌,
  refl, arith, Option-cases, Bool-cases, inl, inr,
}
use mathlib.Core.Path.{subst}
use vtafarm_api.Keys.DidKey.{same_bytes, resolve_authentication_key}
use vtafarm_api.Keys.Canonical.{same_bytes_sound}
use vtafarm_api.Webvh.Result.{Result-cases}
use vtafarm_api.Webvh.Json.{Text, Json, contains}
use vtafarm_api.Webvh.Params.{
  Crypto, ParameterState, initial, all_of, is_committed, apply_parameters,
}
use vtafarm_api.Webvh.Entry.{LogEntry}
use vtafarm_api.Webvh.Log.{
  proof_key, proof_key_authorized, did_of, signed_message, decode_proof_value, verify_entry_proof,
  authorized_keys, last_of, scid_from_did, check_entry, check_entries, validate_entries,
}
use vtafarm_api.Webvh.Chain.{IsStep, check_entry-IsStep}
use vtafarm_api.Webvh.Updates.{IsUpdate, apply_parameters-IsUpdate}

-- The state after entries that follow another one: their parameters, applied in turn.
unfoldable pub replay : Crypto → ParameterState → List LogEntry → Option ParameterState
replay crypto s [] = some s
replay crypto s (entry ∷ entries) = elim (apply_parameters crypto entry.parameters s true) [
  | inl e ↦ none
  | inr next ↦ replay crypto next entries
]

-- The state after the entries of a log.
unfoldable pub state_of : Crypto → List LogEntry → Option ParameterState
unfolding replay
state_of crypto [] = some initial
state_of crypto (entry ∷ entries) = elim (apply_parameters crypto entry.parameters initial false) [
  | inl e ↦ none
  | inr s ↦ replay crypto s entries
]

-- The key is one that the state allows to sign: an update key, or under pre-rotation one that a hash
-- of the state commits to.
abbrev pub allows : Crypto → ParameterState → Text → Bool
allows crypto s key =
    if s.pre_rotation then is_committed crypto s.next_key_hashes key else contains s.update_keys key

-- The entry's proof names the key, and its signature of the entry is that key's.
pub record IsSignedBy (crypto : Crypto) (entry : LogEntry) (key : Text) : Type 0 where
  pub names_key : proof_key entry.proof.verification_method ≡ some key
  pub public_key : List ℕ
  pub resolved :
      resolve_authentication_key
        (did_of crypto entry.proof.verification_method)
        entry.proof.verification_method
      ≡ some public_key
  pub message : List ℕ
  pub is_message : signed_message crypto entry ≡ inr message
  pub signature : List ℕ
  pub is_signature : decode_proof_value entry.proof.proof_value ≡ some signature
  pub verified : crypto.verify public_key message signature ≡ true

is_signed :
    (crypto : Crypto) (entry : LogEntry) (key : Text)
    → proof_key entry.proof.verification_method ≡ some key
    → verify_entry_proof crypto entry ≡ inr tt
    → IsSignedBy crypto entry key
unfolding verify_entry_proof
is_signed crypto entry key named h = elim (Result-cases (signed_message crypto entry)) [
  | inl (e, a) ↦ ground (arith, h, a)
  | inr (m, a) ↦
      elim (Option-cases (
        resolve_authentication_key (did_of crypto entry.proof.verification_method)
          entry.proof.verification_method)) [
            | inl b ↦ ground (arith, h, a, b, named)
            | inr (k, b) ↦ elim (Option-cases (decode_proof_value entry.proof.proof_value)) [
              | inl c ↦ ground (arith, h, a, b, c, named)
              | inr (sig, c) ↦ record {
                names_key = named;
                public_key = k;
                resolved = b;
                message = m;
                is_message = a;
                signature = sig;
                is_signature = c;
                verified = ground (arith, h, a, b, c, named);
              }
            ]
          ]
]

all_of-contains :
    (p : Text → Bool) (keys : List Text) (key : Text)
    → all_of p keys ≡ true
    → contains keys key ≡ true
    → p key ≡ true
unfolding contains any
all_of-contains p [] key h c = cc c
all_of-contains p (k ∷ keys) key h c = elim (Bool-cases (same_bytes k key)) [
  | inl e ↦ subst (λ x. p x ≡ true) (same_bytes_sound k key e) (ground (arith, h))
  | inr e ↦ all_of-contains p keys key (ground (arith, h)) (ground (arith, c, e))
]

-- A step after another entry: its key is one that the state before allows.
step-allows :
    (crypto : Crypto) (scid : Text) (index : ℕ) (p : LogEntry) (before : ParameterState)
    (entry : LogEntry) (next : ParameterState)
    → IsStep crypto scid index (some p) before entry next
    → (key : Text) × (allows crypto before key ≡ true) × IsSignedBy crypto entry key
unfolding proof_key_authorized
step-allows crypto scid index p before entry next step =
    elim (Option-cases (proof_key entry.proof.verification_method)) [
      | inl e ↦ ground (arith, e, step.authorized)
      | inr (key, e) ↦
          let update = apply_parameters-IsUpdate crypto entry.parameters before next step.applied in
          let among : contains (authorized_keys crypto (some p) before next) key ≡ true =
            ground (arith, e, step.authorized) in
          (key, key_allowed key update among, is_signed crypto entry key e step.proved)
    ]
  where
    key_allowed :
        (key : Text)
        → IsUpdate crypto before next
        → contains (authorized_keys crypto (some p) before next) key ≡ true
        → allows crypto before key ≡ true
    key_allowed key update among = elim (Bool-cases before.pre_rotation) [
      | inl r ↦ ground (
        arith,
        r,
        all_of-contains (is_committed crypto before.next_key_hashes) next.update_keys key
            (update.committed r) (ground (arith, r, among)),
      )
      | inr r ↦ ground (arith, r, among)
    ]

within-allows :
    (crypto : Crypto) (did scid : Text) (index : ℕ) (p : LogEntry) (before : ParameterState)
    (matched : Bool) (xs : List LogEntry) (entry : LogEntry) (ys : List LogEntry)
    (result : ParameterState × Bool)
    → check_entries crypto did scid index (some p) before matched (xs ++ entry ∷ ys) ≡ inr result
    → (s : ParameterState) × (replay crypto before xs ≡ some s)
      × ((key : Text) × (allows crypto s key ≡ true) × IsSignedBy crypto entry key)
unfolding check_entries replay
within-allows crypto did scid index p before matched [] entry ys result h =
    elim (Result-cases (check_entry crypto scid index (some p) before entry)) [
      | inl (e, a) ↦ ground (arith, h, a)
      | inr (next, a) ↦ (
        before,
        refl,
        step-allows crypto scid index p before entry next
            (check_entry-IsStep crypto scid index (some p) before entry next a),
      )
    ]
within-allows crypto did scid index p before matched (x ∷ xs) entry ys result h =
    elim (Result-cases (check_entry crypto scid index (some p) before x)) [
      | inl (e, a) ↦ ground (arith, h, a)
      | inr (next, a) ↦
          let step = check_entry-IsStep crypto scid index (some p) before x next a in
          let (s, r, k) =
            within-allows crypto did scid (suc index) x next (matched || same_bytes x.state_id did)
              xs entry ys result (ground (arith, h, a)) in
          (s, ground (arith, step.applied, r), k)
    ]

-- An accepted log passes the loop.
pub validate_entries-loop :
    (crypto : Crypto) (did : Text) (entries : List LogEntry) (document : Json)
    → validate_entries crypto did entries ≡ inr document
    → (scid : Text) × (final : LogEntry) × (result : ParameterState × Bool) × (scid_from_did did
        ≡ some scid)
      × (last_of crypto none entries ≡ some final)
      × (check_entries crypto did scid 0 none initial false entries ≡ inr result)
      × (same_bytes final.state_id did ≡ true)
      × (result.0.deactivated ≡ false)
      × (document ≡ final.state)
unfolding validate_entries
validate_entries-loop crypto did entries document h = elim (Option-cases (scid_from_did did)) [
  | inl a ↦ ground (arith, h, a)
  | inr (scid, a) ↦ elim (Option-cases (last_of crypto none entries)) [
    | inl b ↦ ground (arith, h, a, b)
    | inr (final, b) ↦
        elim (Result-cases (check_entries crypto did scid 0 none initial false entries)) [
          | inl (e, c) ↦ ground (arith, h, a, b, c)
          | inr (result, c) ↦ (
            scid,
            final,
            result,
            a,
            b,
            c,
            ground (arith, h, a, b, c),
            ground (arith, h, a, b, c),
            ground (arith, h, a, b, c),
          )
        ]
  ]
]

-- Modelling internal/webvh/log.go: in a log that validateLog accepts, every entry after the first is
-- signed, over its own content and proof, with a key that the state before it allows: one of the
-- update keys or, under pre-rotation, one whose hash the state commits to. The state is the one that
-- the parameters of the entries before give.
pub validate_entries-IsSignedBy :
    (crypto : Crypto) (did : Text) (first : LogEntry) (xs : List LogEntry) (entry : LogEntry)
    (ys : List LogEntry) (document : Json)
    → validate_entries crypto did (first ∷ xs ++ entry ∷ ys) ≡ inr document
    → (s : ParameterState) × (state_of crypto (first ∷ xs) ≡ some s)
      × ((key : Text) × (allows crypto s key ≡ true) × IsSignedBy crypto entry key)
unfolding check_entries state_of
validate_entries-IsSignedBy crypto did first xs entry ys document h =
    let (scid, final, result, a, b, c, d, e, f) =
      validate_entries-loop crypto did (first ∷ xs ++ entry ∷ ys) document h in
    elim (Result-cases (check_entry crypto scid 0 none initial first)) [
      | inl (e, k) ↦ ground (arith, c, k)
      | inr (next, k) ↦
          let step = check_entry-IsStep crypto scid 0 none initial first next k in
          let (s, r, found) =
            within-allows crypto did scid 1 first next (false || same_bytes first.state_id did) xs
              entry ys result (ground (arith, c, k)) in
          (s, ground (arith, step.applied, r), found)
    ]
