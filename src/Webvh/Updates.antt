-- ===== src/Webvh/Updates.antt =====
-- internal/webvh/log.go: what the parameters of an accepted entry can change in the state.
use vtafarm_api.Base.{
  Bool, true, false, List, [], Option, none, some, ◌≡◌, arith, Option-cases, inl, inr,
}
use vtafarm_api.Keys.Base58.{codes}
use vtafarm_api.Webvh.Result.{Result-cases}
use vtafarm_api.Webvh.Json.{Text, Json, Fields, get_field, unmarshal_bool, unmarshal_texts}
use vtafarm_api.Webvh.Params.{
  Crypto, ParameterState, all_of, is_committed, apply_scid, apply_next_key_hashes,
  replace_update_keys, keep_update_keys, apply_update_keys, apply_portable, apply_deactivated,
  apply_parameters,
}

-- The fields that a stage leaves alone, and the one that it sets.
apply_scid-inr :
    (raw : Option Json) (s next : ParameterState) → apply_scid true raw s ≡ inr next → next ≡ s
unfolding apply_scid
apply_scid-inr none s next h = ground (arith, h)
apply_scid-inr (some raw) s next h = ground (arith, h)

abbrev SameIdentity : ParameterState → ParameterState → Type 0
SameIdentity s next = (next.scid ≡ s.scid) × (next.portable ≡ s.portable)

apply_next_key_hashes-inr :
    (previous : ParameterState) (raw : Option Json) (s next : ParameterState)
    → apply_next_key_hashes previous raw s ≡ inr next
    → SameIdentity s next × (next.update_keys ≡ s.update_keys)
unfolding apply_next_key_hashes
apply_next_key_hashes-inr previous none s next h = ground (arith, h)
apply_next_key_hashes-inr previous (some raw) s next h =
    elim (Option-cases (unmarshal_texts s.next_key_hashes raw)) [
      | inl e ↦ ground (arith, h, e)
      | inr (hashes, e) ↦ ground (arith, h, e)
    ]

replace_update_keys-inr :
    (crypto : Crypto) (previous : ParameterState) (keys : List Text) (s next : ParameterState)
    → replace_update_keys crypto previous keys s ≡ inr next
    → SameIdentity s next
      × (previous.pre_rotation ≡ true
          → all_of (is_committed crypto previous.next_key_hashes) next.update_keys ≡ true)
unfolding replace_update_keys
replace_update_keys-inr crypto previous keys s next h = ground (arith, h)

apply_update_keys-inr :
    (crypto : Crypto) (previous : ParameterState) (raw : Option Json) (s next : ParameterState)
    → apply_update_keys crypto true previous raw s ≡ inr next
    → SameIdentity s next
      × (previous.pre_rotation ≡ true
          → all_of (is_committed crypto previous.next_key_hashes) next.update_keys ≡ true)
unfolding apply_update_keys keep_update_keys
apply_update_keys-inr crypto previous none s next h = ground (arith, h)
apply_update_keys-inr crypto previous (some raw) s next h =
    elim (Option-cases (unmarshal_texts [] raw)) [
      | inl e ↦ ground (arith, h, e)
      | inr (keys, e) ↦ ground (arith, h, e, replace_update_keys-inr crypto previous keys s next)
    ]

apply_portable-inr :
    (raw : Option Json) (s next : ParameterState)
    → apply_portable true raw s ≡ inr next
    → (next.scid ≡ s.scid)
      × (next.portable ≡ true → s.portable ≡ true)
      × (next.update_keys ≡ s.update_keys)
unfolding apply_portable
apply_portable-inr none s next h = ground (arith, h)
apply_portable-inr (some raw) s next h = elim (Option-cases (unmarshal_bool false raw)) [
  | inl e ↦ ground (arith, h, e)
  | inr (b, e) ↦ ground (arith, h, e)
]

apply_deactivated-inr :
    (has_previous : Bool) (raw : Option Json) (s next : ParameterState)
    → apply_deactivated has_previous raw s ≡ inr next
    → SameIdentity s next × (next.update_keys ≡ s.update_keys)
unfolding apply_deactivated
apply_deactivated-inr has_previous none s next h = ground (arith, h)
apply_deactivated-inr has_previous (some raw) s next h =
    elim (Option-cases (unmarshal_bool false raw)) [
      | inl e ↦ ground (arith, h, e)
      | inr (b, e) ↦ ground (arith, h, e)
    ]

-- The parameters of a later entry keep the SCID, do not make the DID portable, and under pre-rotation
-- set keys that the previous state committed to.
pub record IsUpdate (crypto : Crypto) (s next : ParameterState) : Type 0 where
  pub same_scid : next.scid ≡ s.scid
  pub portability : next.portable ≡ true → s.portable ≡ true
  pub committed :
      s.pre_rotation ≡ true → all_of (is_committed crypto s.next_key_hashes) next.update_keys ≡ true

pub apply_parameters-IsUpdate :
    (crypto : Crypto) (raw : Fields) (s next : ParameterState)
    → apply_parameters crypto raw s true ≡ inr next
    → IsUpdate crypto s next
unfolding apply_parameters
apply_parameters-IsUpdate crypto raw s next h =
    elim (Result-cases (apply_scid true (get_field (codes "scid") raw) s)) [
      | inl (e, a) ↦ ground (arith, h, a)
      | inr (s₁, a) ↦
          elim (Result-cases (apply_next_key_hashes s (get_field (codes "nextKeyHashes") raw) s₁)) [
            | inl (e, b) ↦ ground (arith, h, a, b)
            | inr (s₂, b) ↦
                elim (Result-cases
                  (apply_update_keys crypto true s (get_field (codes "updateKeys") raw) s₂)) [
                    | inl (e, c) ↦ ground (arith, h, a, b, c)
                    | inr (s₃, c) ↦
                        elim (Result-cases
                          (apply_portable true (get_field (codes "portable") raw) s₃)) [
                            | inl (e, d) ↦ ground (arith, h, a, b, c, d)
                            | inr (s₄, d) ↦ ground (
                              arith,
                              h,
                              a,
                              b,
                              c,
                              d,
                              apply_scid-inr (get_field (codes "scid") raw) s s₁ a,
                              apply_next_key_hashes-inr s (get_field (codes "nextKeyHashes") raw) s₁
                                  s₂ b,
                              apply_update_keys-inr crypto s (get_field (codes "updateKeys") raw) s₂
                                  s₃ c,
                              apply_portable-inr (get_field (codes "portable") raw) s₃ s₄ d,
                              apply_deactivated-inr true (get_field (codes "deactivated") raw) s₄
                                  next,
                            )
                          ]
                  ]
          ]
    ]
