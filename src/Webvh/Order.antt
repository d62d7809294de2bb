-- ===== src/Webvh/Order.antt =====
-- internal/webvh/log.go: the numbers, times, hashes and identities of the entries of an accepted log.
use vtafarm_api.Base.{
  ℕ, suc, ◌<◌, Bool, true, false, ◌||◌, List, [], ◌∷◌, Option, none, some, All, All-imp, ◌≡◌, ap,
  ◌∙◌, arith, Option-cases, inl, inr,
}
use vtafarm_api.Keys.DidKey.{same_bytes}
use vtafarm_api.Keys.Canonical.{same_bytes_sound}
use vtafarm_api.Webvh.Result.{Result-cases}
use vtafarm_api.Webvh.Json.{Text, Json}
use vtafarm_api.Webvh.Params.{Crypto, ParameterState, initial}
use vtafarm_api.Webvh.Entry.{LogEntry}
use vtafarm_api.Webvh.Log.{
  is_scid_of, is_later, hash_json, hashed_over, unsigned_entry, verify_entry_hash, last_of,
  scid_from_did, check_entry, check_entries, validate_entries,
}
use vtafarm_api.Webvh.Chain.{check_entry-IsStep}
use vtafarm_api.Webvh.Authority.{validate_entries-loop}

-- The entries have the numbers from the given one on.
abbrev pub IsNumbered : ℕ → List LogEntry → Type 0
IsNumbered n [] = Unit
IsNumbered n (e ∷ es) = (e.version ≡ n) × IsNumbered (suc n) es

-- Every entry is later than all before it.
abbrev pub IsIncreasing : List LogEntry → Type 0
IsIncreasing [] = Unit
IsIncreasing (e ∷ es) = All (λ (f : LogEntry). e.version_time < f.version_time) es × IsIncreasing es

-- The hash of each entry is that of its content under the version id of the one before it, or under
-- the SCID for the first one.
abbrev pub IsHashed : Crypto → Option LogEntry → List LogEntry → Type 0
IsHashed crypto previous [] = Unit
IsHashed crypto previous (e ∷ es) =
    (hash_json crypto (unsigned_entry crypto (hashed_over crypto previous e) e)
      ≡ some e.version_hash)
    × IsHashed crypto (some e) es

abbrev IsAfter : Option LogEntry → LogEntry → Type 0
IsAfter none e = Unit
IsAfter (some p) e = p.version_time < e.version_time

scid_of_did :
    (crypto : Crypto) (scid did : Text)
    → is_scid_of crypto scid did ≡ true
    → scid_from_did did ≡ some scid
scid_of_did crypto scid did h = elim (Option-cases (scid_from_did did)) [
  | inl e ↦ ground (arith, e, h)
  | inr (s, e) ↦ e ∙ ap (λ t. some t) (same_bytes_sound s scid (ground (arith, e, h)))
]

hashed :
    (crypto : Crypto) (entry : LogEntry) (previous : Option LogEntry)
    → verify_entry_hash crypto entry previous ≡ inr tt
    → hash_json crypto (unsigned_entry crypto (hashed_over crypto previous entry) entry)
      ≡ some entry.version_hash
unfolding verify_entry_hash
hashed crypto entry previous h =
    elim (Option-cases
      (hash_json crypto (unsigned_entry crypto (hashed_over crypto previous entry) entry))) [
        | inl e ↦ ground (arith, e, h)
        | inr (t, e) ↦
            e ∙ ap (λ x. some x) (same_bytes_sound t entry.version_hash (ground (arith, e, h)))
      ]

record Holds (crypto : Crypto) (scid : Text) (n : ℕ) (previous : Option LogEntry)
    (es : List LogEntry) : Type 0 where
  numbered : IsNumbered n es
  later : All (IsAfter previous) es
  increasing : IsIncreasing es
  hashes : IsHashed crypto previous es
  named : All (λ (e : LogEntry). scid_from_did e.state_id ≡ some scid) es

later_than :
    (previous : Option LogEntry) (e f : LogEntry)
    → IsAfter previous e
    → e.version_time < f.version_time
    → IsAfter previous f
later_than none e f p q = tt
later_than (some x) e f p q = omega (arith, p, q)

is_after :
    (crypto : Crypto) (previous : Option LogEntry) (e : LogEntry)
    → is_later crypto previous e ≡ true
    → IsAfter previous e
is_after crypto none e h = tt
is_after crypto (some p) e h = ground (arith, h)

check_entries-Holds :
    (crypto : Crypto) (did scid : Text) (index : ℕ) (previous : Option LogEntry)
    (before : ParameterState) (matched : Bool) (es : List LogEntry) (result : ParameterState × Bool)
    → check_entries crypto did scid index previous before matched es ≡ inr result
    → Holds crypto scid (suc index) previous es
unfolding check_entries
check_entries-Holds crypto did scid index previous before matched [] result h = record {
  numbered = tt;
  later = tt;
  increasing = tt;
  hashes = tt;
  named = tt;
}
check_entries-Holds crypto did scid index previous before matched (e ∷ es) result h =
    elim (Result-cases (check_entry crypto scid index previous before e)) [
      | inl (x, a) ↦ ground (arith, h, a)
      | inr (next, a) ↦
          let step = check_entry-IsStep crypto scid index previous before e next a in
          let ih =
            check_entries-Holds crypto did scid (suc index) (some e) next
              (matched || same_bytes e.state_id did) es result (ground (arith, h, a)) in
          let here = is_after crypto previous e step.later in
          record {
            numbered = (step.version, ih.numbered);
            later = (
              here,
              All-imp (IsAfter (some e)) (IsAfter previous) es
                  (λ f q. later_than previous e f here q) ih.later,
            );
            increasing = (ih.later, ih.increasing);
            hashes = (hashed crypto e previous step.hashed, ih.hashes);
            named = (scid_of_did crypto scid e.state_id step.names_scid, ih.named);
          }
    ]

-- Modelling internal/webvh/log.go: where validateLog accepts the entries of a log, their versions are
-- 1, 2, 3 and so on, each is later than all before it, the hash of each is that of its content under
-- the version id of the one before (the SCID for the first), every document's DID has the SCID of the
-- requested one, the last document's DID is the requested one, and that document is returned.
pub validate_entries_in_order :
    (crypto : Crypto) (did : Text) (entries : List LogEntry) (document : Json)
    → validate_entries crypto did entries ≡ inr document
    → IsNumbered 1 entries
      × IsIncreasing entries
      × IsHashed crypto none entries
      × ((scid : Text) × (scid_from_did did ≡ some scid)
          × All (λ (e : LogEntry). scid_from_did e.state_id ≡ some scid) entries)
      × ((final : LogEntry) × (last_of crypto none entries ≡ some final)
          × (final.state_id ≡ did)
          × (document ≡ final.state))
validate_entries_in_order crypto did entries document h =
    let (scid, final, result, a, b, c, d, e, f) =
      validate_entries-loop crypto did entries document h in
    let all = check_entries-Holds crypto did scid 0 none initial false entries result c in
    (
      all.numbered,
      all.increasing,
      all.hashes,
      (scid, a, all.named),
      (final, b, same_bytes_sound final.state_id did d, f),
    )
