-- ===== src/Pool/Filling.antt =====
-- internal/pool/store.go: the users, setup sessions and memberships of a batch (createUsers,
-- createSetupSessions, createPoolMembershipsAndResources). An id of a new row is above all ids of its
-- table. The subdomain and the DID's address, which are made of the name, are no columns of the model.
use vtafarm_api.Base.{
  ℕ, zero, suc, ◌-◌, max, String, Bool, true, false, not, List, [], ◌∷◌, ◌++◌, map, none, str_eq,
  leb, ◌==◌, if◌then◌else◌, any, select, length, inl, inr,
}
use vtafarm_api.Store.{
  SetupSession, pool_creating, User, Tx, err, ◌>>=◌, ◌>>◌, check, return, throw, write,
  duplicate_key, pool_exhausted,
}
use vtafarm_api.Pool.Rows.{order_by, by_session_id, is_session}
use vtafarm_api.Pool.Identifiers.{Source, generate_unique_ids}

-- What the transaction reads besides the database: the clock and the two random sources.
pub record Surroundings : Type 0 where
  pub now : ℕ
  pub new_account_id : Source
  pub new_vta_name : Source

abbrev pub above {ℓ} : {A : Type ℓ} → (A → ℕ) → List A → ℕ
above id [] = 1
above id (x ∷ xs) = max (suc (id x)) (above id xs)

-- The rows that INSERT … ON CONFLICT DO NOTHING adds to the users.
unfoldable pub inserted_users : List String → List User → List User
inserted_users [] users = []
inserted_users (name ∷ names) users = elim (any (λ (u : User). str_eq u.unique_id name) users) [
  | true ↦ inserted_users names users
  | false ↦
      let u : User = record {
        id = above (λ (v : User). v.id) users;
        unique_id = name;
        email = none;
        fullstack_access = false;
        passkeys = 0;
      } in
      u ∷ inserted_users names (users ++ u ∷ [])
]

abbrev pub insert_users : List User → Tx (Unit {0})
insert_users us = write (λ db. record db { users = db.users ++ us })

-- The loop of createUsers, with the attempts and the users that are left.
unfoldable pub create_users_loop : Source → ℕ → ℕ → List String → ℕ → Tx (List User)
unfolding inserted_users generate_unique_ids
create_users_loop source attempts zero generated at = return []
create_users_loop source zero (suc need) generated at = throw pool_exhausted
create_users_loop source (suc attempts) (suc need) generated at = λ db.
    elim (generate_unique_ids source (suc need) generated at) [
      | inl e ↦ err e db
      | inr d ↦
          let us = inserted_users d.names db.users in
          (insert_users us
              >> (create_users_loop source attempts (suc need - length us) d.generated d.position
                  >>= λ later. return (us ++ later)))
            db
    ]

abbrev pub by_user_id : User → User → Bool
by_user_id a b = leb a.id b.id

-- createUsers
unfoldable pub create_users : Source → ℕ → Tx (List User)
unfolding create_users_loop order_by
create_users source count =
    create_users_loop source 5 count [] 0 >>= λ users. return (order_by by_user_id users)

-- A candidate for a user and a name, from the template.
abbrev pub candidate : ℕ → SetupSession → User → String → SetupSession
candidate now template user name = record template {
  id = 0;
  user_id = user.id;
  status = pool_creating;
  vta_name = name;
  admin_did = "";
  updated_at = now;
}

unfoldable pub session_candidates : ℕ → SetupSession → List User → List String → List SetupSession
session_candidates now template [] names = []
session_candidates now template (u ∷ us) [] = []
session_candidates now template (u ∷ us) (n ∷ ns) =
    candidate now template u n ∷ session_candidates now template us ns

-- The rows that the insertion adds; a name that is taken conflicts.
unfoldable pub inserted_sessions : List SetupSession → List SetupSession → List SetupSession
inserted_sessions [] sessions = []
inserted_sessions (c ∷ cs) sessions =
    elim (any (λ (s : SetupSession). str_eq s.vta_name c.vta_name) sessions) [
      | true ↦ inserted_sessions cs sessions
      | false ↦
          let s = record c { id = above (λ (t : SetupSession). t.id) sessions } in
          s ∷ inserted_sessions cs (sessions ++ s ∷ [])
    ]

unfoldable pub is_pending : List User → ℕ → Bool
is_pending pending user_id = any (λ (u : User). u.id == user_id) pending

abbrev pub without : List User → ℕ → List User
without pending user_id = select (λ (u : User). not (u.id == user_id)) pending

-- The loop over the sessions that are read back: those of pending users, and the users left.
unfoldable pub settle_users : List SetupSession → List User → List SetupSession × List User
unfolding is_pending
settle_users [] pending = ([], pending)
settle_users (s ∷ ss) pending = elim (is_pending pending s.user_id) [
  | true ↦ let rest = settle_users ss (without pending s.user_id) in (s ∷ rest.0, rest.1)
  | false ↦ settle_users ss pending
]

-- The sessions that one attempt gains, and the users left.
unfoldable pub settle_attempt :
    List User
    → List SetupSession
    → List SetupSession
    → List SetupSession
    → List SetupSession × List User
unfolding settle_users order_by is_pending
settle_attempt pending candidates rows sessions =
    if length rows == length candidates
    then (rows, [])
    else settle_users (order_by by_session_id (select (λ s. is_pending pending s.user_id) sessions))
        pending

abbrev pub insert_sessions : List SetupSession → Tx (Unit {0})
insert_sessions rows = write (λ db. record db { sessions = db.sessions ++ rows })

-- The loop of createSetupSessions.
unfoldable pub create_sessions_loop :
    ℕ → Source → SetupSession → ℕ → List User → List String → ℕ → Tx (List SetupSession)
unfolding session_candidates inserted_sessions settle_attempt generate_unique_ids
create_sessions_loop now source template attempts [] generated at = return []
create_sessions_loop now source template zero (u ∷ us) generated at = throw pool_exhausted
create_sessions_loop now source template (suc attempts) (u ∷ us) generated at = λ db.
    let pending = order_by by_user_id (u ∷ us) in
    elim (generate_unique_ids source (length pending) generated at) [
      | inl e ↦ err e db
      | inr d ↦
          let candidates = session_candidates now template pending d.names in
          let rows = inserted_sessions candidates db.sessions in
          let settled = settle_attempt pending candidates rows (db.sessions ++ rows) in
          (insert_sessions rows
              >> (create_sessions_loop now source template attempts settled.1 d.generated d.position
                  >>= λ later. return (settled.0 ++ later)))
            db
    ]

-- createSetupSessions
unfoldable pub create_setup_sessions :
    ℕ → Source → List User → SetupSession → Tx (List SetupSession)
unfolding create_sessions_loop order_by
create_setup_sessions now source users template =
    create_sessions_loop now source template 5 users [] 0 >>= λ sessions.
    return (order_by by_session_id sessions)

-- createPoolMembershipsAndResources; a session belongs to one batch at most.
unfoldable pub create_memberships : ℕ → List SetupSession → String → String → Tx (Unit {0})
unfolding is_session
create_memberships batch_id sessions memory_request memory_limit db =
    (check (not (any (λ (s : SetupSession). is_session db s.id) sessions)) duplicate_key
        >> write (λ db. record db {
          members =
              db.members
              ++ map (λ (s : SetupSession). record { session_id = s.id; batch_id = batch_id })
                  sessions;
          resources =
              db.resources
              ++ map
                  (λ (s : SetupSession). record {
                    setup_session_id = s.id;
                    memory_request = memory_request;
                    memory_limit = memory_limit;
                  })
                  sessions;
        }))
      db

-- The users, sessions and memberships of a batch.
unfoldable pub fill_batch :
    Surroundings → ℕ → ℕ → SetupSession → String → String → Tx (List SetupSession)
unfolding create_users create_setup_sessions create_memberships
fill_batch env batch_id count template memory_request memory_limit =
    create_users env.new_account_id count >>= λ users.
    create_setup_sessions env.now env.new_vta_name users template >>= λ sessions.
    create_memberships batch_id sessions memory_request memory_limit >> return sessions
