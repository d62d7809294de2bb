-- ===== src/Pool/Frame.antt =====
-- internal/pool/store.go: the creation of users, sessions and memberships leaves the batches alone.
use vtafarm_api.Base.{
  ℕ, zero, suc, ◌-◌, String, List, [], ◌∷◌, ◌++◌, length, ◌≡◌, ◌⊎◌, refl, ◌∙◌, arith, inl, inr,
}
use vtafarm_api.Store.{SetupSession, User, Db, Tx, Outcome, ok, err, Error, ◌>>=◌, ◌>>◌, return}
use vtafarm_api.Pool.Rows.{order_by, by_session_id}
use vtafarm_api.Pool.Identifiers.{Source, generate_unique_ids}
use vtafarm_api.Pool.Filling.{
  Surroundings, inserted_users, insert_users, by_user_id, session_candidates, inserted_sessions,
  insert_sessions, create_users_loop, settle_attempt, create_sessions_loop, create_memberships,
  fill_batch,
}

-- A computation that succeeds leaves the batches alone.
abbrev pub KeepsBatches : {A : Type 0} → Tx A → Type 0
KeepsBatches {A} m = (db : Db) (a : A) (db' : Db) → m db ≡ ok a db' → db'.batches ≡ db.batches

pub Outcome-cases :
    {A : Type 0} (o : Outcome A)
    → ((e : Error) × (d : Db) × (o ≡ err e d)) ⊎ ((a : A) × (d : Db) × (o ≡ ok a d))
Outcome-cases (ok a d) = inr (a, d, refl)
Outcome-cases (err e d) = inl (e, d, refl)

pub sum-cases : {A : Type 0} (r : Error ⊎ A) → ((e : Error) × (r ≡ inl e)) ⊎ ((a : A) × (r ≡ inr a))
sum-cases (inl e) = inl (e, refl)
sum-cases (inr a) = inr (a, refl)

bind-KeepsBatches :
    {A B : Type 0} (m : Tx A) (f : A → Tx B)
    → KeepsBatches m
    → ((a : A) → KeepsBatches (f a))
    → KeepsBatches (m >>= f)
bind-KeepsBatches m f hm hf db b db' h = elim (Outcome-cases (m db)) [
  | inl (e, d, x) ↦ ground (arith, h, x)
  | inr (a, d, x) ↦ hf a d b db' (ground (arith, h, x)) ∙ hm db a d x
]

then-KeepsBatches :
    {A B : Type 0} (m : Tx A) (k : Tx B) → KeepsBatches m → KeepsBatches k → KeepsBatches (m >> k)
then-KeepsBatches m k hm hk = bind-KeepsBatches m (λ _. k) hm (λ _. hk)

return-KeepsBatches : {A : Type 0} (a : A) → KeepsBatches (return a)
return-KeepsBatches a db x db' h = ground (arith, h)

create_users_loop-KeepsBatches :
    (source : Source) (attempts need : ℕ) (generated : List String) (at : ℕ)
    → KeepsBatches (create_users_loop source attempts need generated at)
unfolding create_users_loop
create_users_loop-KeepsBatches source zero zero generated at = return-KeepsBatches []
create_users_loop-KeepsBatches source (suc attempts) zero generated at = return-KeepsBatches []
create_users_loop-KeepsBatches source zero (suc need) generated at = λ db a db' h. cc h
create_users_loop-KeepsBatches source (suc attempts) (suc need) generated at = λ db us db' h.
    elim (sum-cases (generate_unique_ids source (suc need) generated at)) [
      | inl (e, x) ↦ ground (arith, h, x)
      | inr (d, x) ↦
          let rows = inserted_users d.names db.users in
          then-KeepsBatches (insert_users rows)
            (create_users_loop source attempts (suc need - length rows) d.generated d.position
              >>= λ later. return (rows ++ later))
            (λ b u b' k. ground (arith, k))
            (bind-KeepsBatches _ _
              (create_users_loop-KeepsBatches source attempts (suc need - length rows) d.generated
                d.position)
              (λ later. return-KeepsBatches (rows ++ later)))
            db us db' (ground (arith, h, x))
    ]

create_sessions_loop-KeepsBatches :
    (now : ℕ) (source : Source) (template : SetupSession) (attempts : ℕ) (pending : List User)
    (generated : List String) (at : ℕ)
    → KeepsBatches (create_sessions_loop now source template attempts pending generated at)
unfolding create_sessions_loop
create_sessions_loop-KeepsBatches now source template zero [] generated at = return-KeepsBatches []
create_sessions_loop-KeepsBatches now source template (suc attempts) [] generated at =
    return-KeepsBatches []
create_sessions_loop-KeepsBatches now source template zero (u ∷ us) generated at =
    λ db a db' h. cc h
create_sessions_loop-KeepsBatches now source template (suc attempts) (u ∷ us) generated at =
    λ db ss db' h.
      let pending = order_by by_user_id (u ∷ us) in
      elim (sum-cases (generate_unique_ids source (length pending) generated at)) [
        | inl (e, x) ↦ ground (arith, h, x)
        | inr (d, x) ↦
            let candidates = session_candidates now template pending d.names in
            let rows = inserted_sessions candidates db.sessions in
            let settled = settle_attempt pending candidates rows (db.sessions ++ rows) in
            then-KeepsBatches (insert_sessions rows)
              (create_sessions_loop now source template attempts settled.1 d.generated d.position
                >>= λ later. return (settled.0 ++ later))
              (λ b u b' k. ground (arith, k))
              (bind-KeepsBatches _ _
                (create_sessions_loop-KeepsBatches now source template attempts settled.1
                  d.generated d.position)
                (λ later. return-KeepsBatches (settled.0 ++ later)))
              db ss db' (ground (arith, h, x))
      ]

create_memberships-KeepsBatches :
    (batch_id : ℕ) (sessions : List SetupSession) (memory_request memory_limit : String)
    → KeepsBatches (create_memberships batch_id sessions memory_request memory_limit)
unfolding create_memberships
create_memberships-KeepsBatches batch_id sessions memory_request memory_limit =
    λ db u db' h. ground (arith, h)

pub fill_batch-KeepsBatches :
    (env : Surroundings) (batch_id count : ℕ) (template : SetupSession)
    (memory_request memory_limit : String)
    → KeepsBatches (fill_batch env batch_id count template memory_request memory_limit)
unfolding fill_batch
fill_batch-KeepsBatches env batch_id count template memory_request memory_limit =
    bind-KeepsBatches _ _
      (bind-KeepsBatches _ _ (create_users_loop-KeepsBatches env.new_account_id 5 count [] 0)
        (λ users. return-KeepsBatches (order_by by_user_id users)))
      (λ users.
        bind-KeepsBatches _ _
          (bind-KeepsBatches _ _
            (create_sessions_loop-KeepsBatches env.now env.new_vta_name template 5 users [] 0)
            (λ sessions. return-KeepsBatches (order_by by_session_id sessions)))
          (λ sessions.
            then-KeepsBatches _ _
              (create_memberships-KeepsBatches batch_id sessions memory_request memory_limit)
              (return-KeepsBatches sessions)))
