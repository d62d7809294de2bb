-- ===== src/Wallet/Materialized.antt =====
-- internal/walletauth/store.go: which bindings materializeReleasedClaims adds.
use vtafarm_api.Base.{
  String, Bool, ◌&&◌, str_eq, true, List, [], ◌∷◌, ◌++◌, some, eq_iff, ==_refl, find, any, ◌≡◌,
  refl, sym, arith, All, All-append, Bool-cases, Option-cases, inl, inr,
}
use mathlib.Core.Path.{subst}
use mathlib.Core.Option.{some-injective}
use vtafarm_api.Store.{SetupSession, MobileConnection, WalletLoginBinding, Db}
use vtafarm_api.Connection.Rules.{is_released, same_text}
use vtafarm_api.Connection.Provision.{add_binding, binding_of, same_binding}
use vtafarm_api.Wallet.Bindings.{
  is_source, released_time, session_of, materialize_rows, materialize_released_claims,
}
use vtafarm_api.Wallet.Revoked.{any-append_left}

same_binding_refl : (b : WalletLoginBinding) → same_binding b b ≡ true
same_binding_refl b =
    ground
      (arith, ==_refl b.source_claim_id, ==_refl b.user_id, (eq_iff b.login_did b.login_did).1 refl)

any_last :
    (b : WalletLoginBinding) (bs : List WalletLoginBinding)
    → any (same_binding b) (bs ++ b ∷ []) ≡ true
unfolding any
any_last b [] = ground (arith, same_binding_refl b)
any_last b (x ∷ bs) = ground (arith, any_last b bs)

add_binding_there :
    (b : WalletLoginBinding) (bs : List WalletLoginBinding)
    → any (same_binding b) (add_binding b bs) ≡ true
unfolding add_binding
add_binding_there b bs = elim (Bool-cases (any (same_binding b) bs)) [
  | inl e ↦ rw e e
  | inr e ↦ rw e (any_last b bs)
]

add_binding_keeps :
    (p : WalletLoginBinding → Bool) (b : WalletLoginBinding) (bs : List WalletLoginBinding)
    → any p bs ≡ true
    → any p (add_binding b bs) ≡ true
unfolding add_binding
add_binding_keeps p b bs h = elim (Bool-cases (any (same_binding b) bs)) [
  | inl e ↦ rw e h
  | inr e ↦ rw e (any-append_left p bs (b ∷ []) h)
]

module _ (digest : String → String) (did : String) (db : Db) where
  rows_keep :
      (p : WalletLoginBinding → Bool) (cs : List MobileConnection) (bs : List WalletLoginBinding)
      → any p bs ≡ true
      → any p (materialize_rows digest did db cs bs) ≡ true
  unfolding materialize_rows
  rows_keep p [] bs h = h
  rows_keep p (c ∷ cs) bs h = elim (Option-cases (session_of db c)) [
    | inl e ↦ rw e (rows_keep p cs bs h)
    | inr (s, e) ↦ elim (Bool-cases (is_source digest did c)) [
      | inl t ↦
          rw (e, t)
            (rows_keep p cs (add_binding (binding_of (released_time c) s c) bs)
              (add_binding_keeps p (binding_of (released_time c) s c) bs h))
      | inr f ↦ rw (e, f) (rows_keep p cs bs h)
    ]
  ]

  rows_add :
      (p : MobileConnection → Bool) (c : MobileConnection) (s : SetupSession)
      (cs : List MobileConnection) (bs : List WalletLoginBinding)
      → session_of db c ≡ some s
      → is_source digest did c ≡ true
      → find p cs ≡ some c
      → any (same_binding (binding_of (released_time c) s c)) (materialize_rows digest did db cs bs)
        ≡ true
  unfolding materialize_rows find
  rows_add p c s [] bs e t f = cc
  rows_add p c s (x ∷ cs) bs e t f = elim (Bool-cases (p x)) [
    | inl h ↦
        let same : x ≡ c = some-injective x c (ground (arith, h, f)) in
        subst
          (λ y.
            any (same_binding (binding_of (released_time c) s c))
              (materialize_rows digest did db (y ∷ cs) bs)
            ≡ true)
          (sym same)
          (rw (e, t)
            (rows_keep (same_binding (binding_of (released_time c) s c)) cs
              (add_binding (binding_of (released_time c) s c) bs)
              (add_binding_there (binding_of (released_time c) s c) bs)))
    | inr h ↦ elim (Option-cases (session_of db x)) [
      | inl g ↦ rw g (rows_add p c s cs bs e t (ground (arith, h, f)))
      | inr (y, g) ↦ elim (Bool-cases (is_source digest did x)) [
        | inl k ↦
            rw (g, k)
              (rows_add p c s cs (add_binding (binding_of (released_time x) y x) bs) e t
                (ground (arith, h, f)))
        | inr k ↦ rw (g, k) (rows_add p c s cs bs e t (ground (arith, h, f)))
      ]
    ]
  ]

  rows_sound :
      (P : WalletLoginBinding → Type 0) (cs : List MobileConnection) (bs : List WalletLoginBinding)
      → All P bs
      → ((c : MobileConnection) (s : SetupSession)
          → session_of db c ≡ some s
          → is_source digest did c ≡ true
          → P (binding_of (released_time c) s c))
      → All P (materialize_rows digest did db cs bs)
  unfolding materialize_rows add_binding
  rows_sound P [] bs h step = h
  rows_sound P (c ∷ cs) bs h step = elim (Option-cases (session_of db c)) [
    | inl e ↦ rw e (rows_sound P cs bs h step)
    | inr (s, e) ↦ elim (Bool-cases (is_source digest did c)) [
      | inr f ↦ rw (e, f) (rows_sound P cs bs h step)
      | inl t ↦ elim (Bool-cases (any (same_binding (binding_of (released_time c) s c)) bs)) [
        | inl k ↦ rw (e, t, k) (rows_sound P cs bs h step)
        | inr k ↦
            rw (e, t, k)
              (rows_sound P cs (bs ++ binding_of (released_time c) s c ∷ [])
                (All-append P bs (binding_of (released_time c) s c ∷ []) h (step c s e t, tt)) step)
      ]
    ]
  ]

-- A released row of the DID that was claimed under the digest of the DID.
abbrev pub is_proven : (String → String) → String → MobileConnection → Bool
is_proven digest did c =
    is_released c.status
    && str_eq c.admin_did did
    && same_text (some (digest c.admin_did)) c.claimant_digest

-- Modelling internal/walletauth/store.go: materializeReleasedClaims of a DID adds bindings for proven
-- claims only, and for all of them. What holds of the bindings that were there, and of the binding
-- of each released row of the DID whose claimant digest is the digest of the DID and whose session
-- is there, holds of the bindings afterwards; and such a row, if a query finds it in the table, has a
-- binding afterwards that is of its user and DID or of its claim.
pub materialized_exactly :
    (digest : String → String) (did : String) (db : Db) (P : WalletLoginBinding → Type 0)
    (p : MobileConnection → Bool) (c : MobileConnection) (s : SetupSession)
    → All P db.bindings
    → ((c : MobileConnection) (s : SetupSession)
        → session_of db c ≡ some s
        → is_proven digest did c ≡ true
        → P (binding_of (released_time c) s c))
    → find p db.connections ≡ some c
    → session_of db c ≡ some s
    → is_proven digest did c ≡ true
    → All P (materialize_released_claims digest did db).bindings
      × (any
            (same_binding (binding_of (released_time c) s c))
            (materialize_released_claims digest did db).bindings
          ≡ true)
unfolding materialize_released_claims is_source
materialized_exactly digest did db P p c s old step f e t = (
  rows_sound digest did db P db.connections db.bindings old step,
  rows_add digest did db p c s db.connections db.bindings e t f,
)
