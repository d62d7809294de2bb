-- ===== src/Wallet/Revoked.antt =====
-- internal/walletauth/store.go: a binding that was revoked does not come back.
use vtafarm_api.Base.{
  ℕ, String, Bool, true, false, ◌&&◌, List, [], ◌∷◌, ◌++◌, some, str_eq, eq_iff, is_some, ◌==◌,
  find, any, select, ◌≡◌, refl, sym, ◌∙◌, arith, All, All-append, Bool-cases, Option-cases, inl,
  inr, ==→eq, ==_refl,
}
use mathlib.Core.Path.{subst}
use mathlib.Core.Option.{some-injective}
use vtafarm_api.Store.{MobileConnection, WalletLoginBinding, Db}
use vtafarm_api.Connection.Provision.{add_binding, binding_of, same_binding}
use vtafarm_api.Wallet.Bindings.{
  WalletLoginSession, Logins, is_source, released_time, session_of, materialize_rows,
  materialize_released_claims, is_active_binding, active_bindings, may_revoke, revoke_binding_rows,
  revoke_session_rows, revoke_binding,
}

abbrev pub has_pair : ℕ → String → WalletLoginBinding → Bool
has_pair user_id login_did b = b.user_id == user_id && str_eq b.login_did login_did

-- The user has a binding of the DID, and every one is revoked.
abbrev pub IsRevoked : ℕ → String → List WalletLoginBinding → Type 0
IsRevoked user_id login_did bs =
    (any (has_pair user_id login_did) bs ≡ true)
    × All (λ b. has_pair user_id login_did b ≡ true → is_some b.revoked_at ≡ true) bs

-- UNIQUE (user_id, login_did), for the pair of a binding
abbrev pub IsOnly : WalletLoginBinding → List WalletLoginBinding → Type 0
IsOnly b bs =
    All
      (λ x.
        has_pair b.user_id b.login_did x ≡ true → (x.source_claim_id == b.source_claim_id) ≡ true)
      bs

pub any-append_left :
    (p : WalletLoginBinding → Bool) (bs cs : List WalletLoginBinding)
    → any p bs ≡ true
    → any p (bs ++ cs) ≡ true
unfolding any
any-append_left p [] cs h = cc
any-append_left p (b ∷ bs) cs h = ground (arith, any-append_left p bs cs)

-- A binding of the pair clashes with those that are there.
clash_one :
    (user_id : ℕ) (login_did : String) (b x : WalletLoginBinding)
    → has_pair user_id login_did b ≡ true
    → has_pair user_id login_did x ≡ true
    → same_binding b x ≡ true
clash_one user_id login_did b x h k =
    let user : b.user_id ≡ x.user_id =
      ==→eq b.user_id user_id (ground (arith, h))
      ∙ sym (==→eq x.user_id user_id (ground (arith, k))) in
    let did : b.login_did ≡ x.login_did =
      (eq_iff b.login_did login_did).0 (ground (arith, h))
      ∙ sym ((eq_iff x.login_did login_did).0 (ground (arith, k))) in
    ground (arith, user, (eq_iff b.login_did x.login_did).1 did)

clash :
    (user_id : ℕ) (login_did : String) (b : WalletLoginBinding) (bs : List WalletLoginBinding)
    → has_pair user_id login_did b ≡ true
    → any (has_pair user_id login_did) bs ≡ true
    → any (same_binding b) bs ≡ true
unfolding any
clash user_id login_did b [] h a = cc
clash user_id login_did b (x ∷ bs) h a = elim (Bool-cases (has_pair user_id login_did x)) [
  | inl e ↦ rw (clash_one user_id login_did b x h e) refl
  | inr e ↦ ground (arith, e, a, clash user_id login_did b bs h)
]

module _ (user_id : ℕ) (login_did : String) where
  add_binding-IsRevoked :
      (b : WalletLoginBinding) (bs : List WalletLoginBinding)
      → IsRevoked user_id login_did bs
      → IsRevoked user_id login_did (add_binding b bs)
  unfolding add_binding
  add_binding-IsRevoked b bs (has, revoked) = elim (Bool-cases (any (same_binding b) bs)) [
    | inl e ↦ rw e (has, revoked)
    | inr e ↦
        let other : has_pair user_id login_did b ≡ false =
          elim (Bool-cases (has_pair user_id login_did b)) [
            | inl h ↦ ground (arith, e, clash user_id login_did b bs h has)
            | inr h ↦ h
          ] in
        rw e (
          any-append_left (has_pair user_id login_did) bs (b ∷ []) has,
          All-append _ bs (b ∷ []) revoked ((λ h. ground (arith, h, other)), tt),
        )
  ]

  materialize_rows-IsRevoked :
      (digest : String → String) (did : String) (db : Db) (cs : List MobileConnection)
      (bs : List WalletLoginBinding)
      → IsRevoked user_id login_did bs
      → IsRevoked user_id login_did (materialize_rows digest did db cs bs)
  unfolding materialize_rows
  materialize_rows-IsRevoked digest did db [] bs h = h
  materialize_rows-IsRevoked digest did db (c ∷ cs) bs h = elim (Option-cases (session_of db c)) [
    | inl e ↦ rw e (materialize_rows-IsRevoked digest did db cs bs h)
    | inr (s, e) ↦ elim (Bool-cases (is_source digest did c)) [
      | inl t ↦
          rw (e, t)
            (materialize_rows-IsRevoked digest did db cs
              (add_binding (binding_of (released_time c) s c) bs)
              (add_binding-IsRevoked (binding_of (released_time c) s c) bs h))
      | inr f ↦ rw (e, f) (materialize_rows-IsRevoked digest did db cs bs h)
    ]
  ]

  -- The active bindings of the DID leave the user out.
  active_bindings-revoked :
      (bs : List WalletLoginBinding)
      → All (λ b. has_pair user_id login_did b ≡ true → is_some b.revoked_at ≡ true) bs
      → All (λ b. (b.user_id == user_id) ≡ false) (select (is_active_binding login_did) bs)
  unfolding select
  active_bindings-revoked [] h = tt
  active_bindings-revoked (b ∷ bs) (h, hs) = elim (Bool-cases (is_active_binding login_did b)) [
    | inl e ↦ rw e (ground (arith, e, h), active_bindings-revoked bs hs)
    | inr e ↦ rw e (active_bindings-revoked bs hs)
  ]

any-revoke :
    (now user_id claim_id : ℕ) (login_did : String) (bs : List WalletLoginBinding)
    → any (has_pair user_id login_did) bs ≡ true
    → any (has_pair user_id login_did) (revoke_binding_rows now claim_id bs) ≡ true
unfolding any
any-revoke now user_id claim_id login_did [] has = cc
any-revoke now user_id claim_id login_did (b ∷ bs) has =
    ground (arith, has, any-revoke now user_id claim_id login_did bs)

All-revoke :
    (now user_id claim_id : ℕ) (login_did : String) (bs : List WalletLoginBinding)
    → All (λ b. has_pair user_id login_did b ≡ true → (b.source_claim_id == claim_id) ≡ true) bs
    → All
        (λ b. has_pair user_id login_did b ≡ true → is_some b.revoked_at ≡ true)
        (revoke_binding_rows now claim_id bs)
All-revoke now user_id claim_id login_did [] only = tt
All-revoke now user_id claim_id login_did (b ∷ bs) (h, hs) =
    ((λ k. ground (arith, h, k)), All-revoke now user_id claim_id login_did bs hs)

All-revoke_session :
    (now claim_id : ℕ) (ss : List WalletLoginSession)
    → All
        (λ s. (s.binding == claim_id) ≡ true → is_some s.revoked_at ≡ true)
        (revoke_session_rows now claim_id ss)
All-revoke_session now claim_id [] = tt
All-revoke_session now claim_id (s ∷ ss) = (
  (λ k. elim (Option-cases s.revoked_at) [
    | inl e ↦ ground (arith, k, e)
    | inr (t, e) ↦ ground (arith, k, e)
  ]),
  All-revoke_session now claim_id ss,
)

any_found :
    (p q : WalletLoginBinding → Bool) (bs : List WalletLoginBinding) (b : WalletLoginBinding)
    → find p bs ≡ some b
    → q b ≡ true
    → any q bs ≡ true
unfolding find any
any_found p q [] b e h = cc
any_found p q (x ∷ bs) b e h = elim (Bool-cases (p x)) [
  | inl t ↦ rw (subst (λ y. q y ≡ true) (sym (some-injective x b (ground (arith, t, e)))) h) refl
  | inr t ↦ ground (arith, t, any_found p q bs b, e, h)
]

-- Claims are materialized for one DID after another, as the wallets sign in.
unfoldable pub materialize_all : (String → String) → List String → Db → Db
materialize_all digest [] db = db
materialize_all digest (did ∷ dids) db =
    materialize_all digest dids (materialize_released_claims digest did db)

materialize_all-IsRevoked :
    (user_id : ℕ) (login_did : String) (digest : String → String) (dids : List String) (db : Db)
    → IsRevoked user_id login_did db.bindings
    → IsRevoked user_id login_did (materialize_all digest dids db).bindings
unfolding materialize_all materialize_released_claims
materialize_all-IsRevoked user_id login_did digest [] db h = h
materialize_all-IsRevoked user_id login_did digest (did ∷ dids) db h =
    materialize_all-IsRevoked user_id login_did digest dids
      (materialize_released_claims digest did db)
      (materialize_rows-IsRevoked user_id login_did digest did db db.connections db.bindings h)

-- Modelling internal/walletauth/store.go: where a user has an active binding, the only one of the
-- user and its DID, RevokeBinding succeeds; after it all login sessions of the binding are revoked,
-- and however many released claims are materialized afterwards, for any DIDs, ActiveBindings of the
-- DID returns no binding of the user.
pub revoked_for_good :
    (digest : String → String) (dids : List String) (now user_id claim_id : ℕ) (l : Logins)
    (b : WalletLoginBinding)
    → find (may_revoke user_id claim_id) l.db.bindings ≡ some b
    → IsOnly b l.db.bindings
    → (l' : Logins) × (revoke_binding now user_id claim_id l ≡ some l')
      × All (λ s. (s.binding == b.source_claim_id) ≡ true → is_some s.revoked_at ≡ true) l'.sessions
      × All
          (λ x. (x.user_id == b.user_id) ≡ false)
          (active_bindings digest b.login_did (materialize_all digest dids l'.db)).0
unfolding revoke_binding active_bindings materialize_released_claims
revoked_for_good digest dids now user_id claim_id l b found only =
    let db' : Db = record l.db {
      bindings = revoke_binding_rows now b.source_claim_id l.db.bindings;
    } in
    let l' : Logins = record {
      db = db';
      sessions = revoke_session_rows now b.source_claim_id l.sessions;
    } in
    let self : has_pair b.user_id b.login_did b ≡ true =
      ground (arith, ==_refl b.user_id, (eq_iff b.login_did b.login_did).1 refl) in
    let has =
      any_found (may_revoke user_id claim_id) (has_pair b.user_id b.login_did) l.db.bindings b found
        self in
    let start : IsRevoked b.user_id b.login_did db'.bindings = (
      any-revoke now b.user_id b.source_claim_id b.login_did l.db.bindings has,
      All-revoke now b.user_id b.source_claim_id b.login_did l.db.bindings only,
    ) in
    let later : Db = materialize_all digest dids db' in
    let (has', revoked) =
      materialize_rows-IsRevoked b.user_id b.login_did digest b.login_did later later.connections
        later.bindings (materialize_all-IsRevoked b.user_id b.login_did digest dids db' start) in
    (
      l',
      ground (arith, found),
      All-revoke_session now b.source_claim_id l.sessions,
      active_bindings-revoked b.user_id b.login_did
          (materialize_rows digest b.login_did later later.connections later.bindings) revoked,
    )
