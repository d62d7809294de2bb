-- ===== src/Webvh/Identity.antt =====
-- internal/webvh/log.go: the DID of a log whose first entry does not make it portable never changes.
use vtafarm_api.Base.{
  ℕ, suc, Bool, false, ◌||◌, List, [], ◌∷◌, none, some, All, All-imp, ◌≡◌, refl, sym, ap, ◌∙◌,
  arith, Bool-cases, inl, inr,
}
use mathlib.Core.Path.{subst}
use mathlib.Core.Option.{some-injective}
use vtafarm_api.Keys.DidKey.{same_bytes}
use vtafarm_api.Keys.Canonical.{same_bytes_sound}
use vtafarm_api.Webvh.Result.{Result-cases}
use vtafarm_api.Webvh.Json.{Text, Json}
use vtafarm_api.Webvh.Params.{Crypto, ParameterState, initial}
use vtafarm_api.Webvh.Entry.{LogEntry}
use vtafarm_api.Webvh.Log.{check_origin, last_of, check_entry, check_entries, validate_entries}
use vtafarm_api.Webvh.Chain.{check_entry-IsStep}
use vtafarm_api.Webvh.Updates.{IsUpdate, apply_parameters-IsUpdate}
use vtafarm_api.Webvh.Authority.{state_of, validate_entries-loop}

same_origin :
    (crypto : Crypto) (p : LogEntry) (active : ParameterState) (entry : LogEntry)
    → active.portable ≡ false
    → check_origin crypto (some p) active entry ≡ inr tt
    → entry.state_id ≡ p.state_id
unfolding check_origin
same_origin crypto p active entry fixed h =
    same_bytes_sound entry.state_id p.state_id (ground (arith, fixed, h))

stays_fixed :
    (crypto : Crypto) (before next : ParameterState)
    → IsUpdate crypto before next
    → before.portable ≡ false
    → next.portable ≡ false
stays_fixed crypto before next update fixed = elim (Bool-cases next.portable) [
  | inl e ↦ ground (arith, fixed, update.portability e)
  | inr e ↦ e
]

check_entries-fixed :
    (crypto : Crypto) (did scid : Text) (index : ℕ) (p : LogEntry) (before : ParameterState)
    (matched : Bool) (es : List LogEntry) (result : ParameterState × Bool)
    → check_entries crypto did scid index (some p) before matched es ≡ inr result
    → before.portable ≡ false
    → All (λ (e : LogEntry). e.state_id ≡ p.state_id) es
unfolding check_entries
check_entries-fixed crypto did scid index p before matched [] result h fixed = tt
check_entries-fixed crypto did scid index p before matched (e ∷ es) result h fixed =
    elim (Result-cases (check_entry crypto scid index (some p) before e)) [
      | inl (x, a) ↦ ground (arith, h, a)
      | inr (next, a) ↦
          let step = check_entry-IsStep crypto scid index (some p) before e next a in
          let update = apply_parameters-IsUpdate crypto e.parameters before next step.applied in
          let still = stays_fixed crypto before next update fixed in
          let here = same_origin crypto p next e still step.origin in
          let ih =
            check_entries-fixed crypto did scid (suc index) e next
              (matched || same_bytes e.state_id did) es result (ground (arith, h, a)) still in
          (
            here,
            All-imp (λ (f : LogEntry). f.state_id ≡ e.state_id)
                (λ (f : LogEntry). f.state_id ≡ p.state_id) es (λ f q. q ∙ here) ih,
          )
    ]

last_of-All :
    (crypto : Crypto) (P : LogEntry → Type 0) (p : LogEntry) (es : List LogEntry) (final : LogEntry)
    → P p
    → All P es
    → last_of crypto (some p) es ≡ some final
    → P final
last_of-All crypto P p [] final h all e = subst P (some-injective p final e) h
last_of-All crypto P p (x ∷ es) final h all e = last_of-All crypto P x es final all.0 all.1 e

-- Modelling internal/webvh/log.go: where validateLog accepts a log and the parameters of the first
-- entry do not make the DID portable, every entry's document has the requested DID.
pub validate_entries_immovable :
    (crypto : Crypto) (did : Text) (first : LogEntry) (es : List LogEntry) (document : Json)
    (s : ParameterState)
    → validate_entries crypto did (first ∷ es) ≡ inr document
    → state_of crypto (first ∷ []) ≡ some s
    → s.portable ≡ false
    → All (λ (e : LogEntry). e.state_id ≡ did) (first ∷ es)
unfolding check_entries state_of
validate_entries_immovable crypto did first es document s h start fixed =
    let (scid, final, result, a, b, c, d, e, f) =
      validate_entries-loop crypto did (first ∷ es) document h in
    elim (Result-cases (check_entry crypto scid 0 none initial first)) [
      | inl (x, k) ↦ ground (arith, c, k)
      | inr (next, k) ↦
          let step = check_entry-IsStep crypto scid 0 none initial first next k in
          let same : next ≡ s = some-injective next s (ground (arith, step.applied, start)) in
          let held =
            check_entries-fixed crypto did scid 1 first next
              (false || same_bytes first.state_id did) es result (ground (arith, c, k))
              (ap (λ (t : ParameterState). t.portable) same ∙ fixed) in
          let here : first.state_id ≡ did =
            sym (
              last_of-All crypto (λ (e : LogEntry). e.state_id ≡ first.state_id) first es final refl
                held b)
            ∙ same_bytes_sound final.state_id did d in
          (
            here,
            All-imp (λ (e : LogEntry). e.state_id ≡ first.state_id)
                (λ (e : LogEntry). e.state_id ≡ did) es (λ e q. q ∙ here) held,
          )
    ]
