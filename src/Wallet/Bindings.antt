-- ===== src/Wallet/Bindings.antt =====
-- internal/walletauth/store.go: ActiveBindings, materializeReleasedClaims and RevokeBinding. A
-- binding is named by its source claim, which is unique, in place of its serial number. A released
-- row carries the time of its release.
use vtafarm_api.Base.{
  ℕ, String, Bool, ◌&&◌, List, [], ◌∷◌, Option, none, some, str_eq, is_none, if◌then◌else◌, ◌==◌,
  find, select, update_where,
}
use vtafarm_api.Store.{SetupSession, MobileConnection, WalletLoginBinding, Db}
use vtafarm_api.Connection.Rules.{is_released, same_text}
use vtafarm_api.Connection.Provision.{add_binding, binding_of}

pub record WalletLoginSession : Type 0 where
  pub id : ℕ
  pub binding : ℕ
  pub expires_at : ℕ
  pub revoked_at : Option ℕ

pub record Logins : Type 0 where
  pub db : Db
  pub sessions : List WalletLoginSession

-- The condition of the query, and the check of the claimant's digest. A row's operation is one of
-- the two that the query lists.
unfoldable pub is_source : (String → String) → String → MobileConnection → Bool
is_source digest login_did c =
    is_released c.status
    && str_eq c.admin_did login_did
    && same_text (some (digest c.admin_did)) c.claimant_digest

abbrev pub released_time : MobileConnection → ℕ
released_time c = elim c.released_at [ none ↦ 0 | some t ↦ t ]

-- The session that the query joins.
abbrev pub session_of : Db → MobileConnection → Option SetupSession
session_of db c = find (λ (s : SetupSession). s.id == c.session_id) db.sessions

-- The loop over the rows of the query, on the bindings.
unfoldable pub materialize_rows :
    (String → String)
    → String
    → Db
    → List MobileConnection
    → List WalletLoginBinding
    → List WalletLoginBinding
unfolding is_source add_binding
materialize_rows digest login_did db [] bs = bs
materialize_rows digest login_did db (c ∷ cs) bs =
    let next : List WalletLoginBinding = elim (session_of db c) [
      | none ↦ bs
      | some s ↦
          if is_source digest login_did c
          then add_binding (binding_of (released_time c) s c) bs
          else bs
    ] in
    materialize_rows digest login_did db cs next

-- materializeReleasedClaims
unfoldable pub materialize_released_claims : (String → String) → String → Db → Db
unfolding materialize_rows
materialize_released_claims digest login_did db = record db {
  bindings = materialize_rows digest login_did db db.connections db.bindings;
}

abbrev pub is_active_binding : String → WalletLoginBinding → Bool
is_active_binding login_did b = str_eq b.login_did login_did && is_none b.revoked_at

-- ActiveBindings
unfoldable pub active_bindings : (String → String) → String → Db → List WalletLoginBinding × Db
unfolding materialize_released_claims
active_bindings digest login_did db =
    let db' : Db = materialize_released_claims digest login_did db in
    (select (is_active_binding login_did) db'.bindings, db')

abbrev pub may_revoke : ℕ → ℕ → WalletLoginBinding → Bool
may_revoke user_id claim_id b =
    b.source_claim_id == claim_id && b.user_id == user_id && is_none b.revoked_at

abbrev pub revoke_binding_rows : ℕ → ℕ → List WalletLoginBinding → List WalletLoginBinding
revoke_binding_rows now claim_id =
    update_where (λ b. b.source_claim_id == claim_id) (λ b. record b { revoked_at = some now })

abbrev pub revoke_session_rows : ℕ → ℕ → List WalletLoginSession → List WalletLoginSession
revoke_session_rows now claim_id =
    update_where (λ s. s.binding == claim_id && is_none s.revoked_at)
      (λ s. record s { revoked_at = some now })

-- RevokeBinding; `none` for the error that the binding is not found.
unfoldable pub revoke_binding : ℕ → ℕ → ℕ → Logins → Option Logins
revoke_binding now user_id claim_id l = elim (find (may_revoke user_id claim_id) l.db.bindings) [
  | none ↦ none
  | some b ↦ some (record {
    db = record l.db { bindings = revoke_binding_rows now b.source_claim_id l.db.bindings };
    sessions = revoke_session_rows now b.source_claim_id l.sessions;
  })
]
