-- ===== src/Pool/Fits.antt =====
-- internal/pool/store.go: the sessions of a batch that Admit creates fit in the capacity.
use vtafarm_api.Base.{
  ℕ, zero, suc, ◌+◌, ◌-◌, ◌<◌, ◌≤◌, String, Bool, true, false, not, ◌&&◌, List, [], ◌∷◌, ◌++◌, map,
  leb, any, count, length, length-map, ◌≡◌, refl, sym, ◌∙◌, arith, All, All-imp, Bool-cases,
  Option-cases, inl, inr,
}
use mathlib.Core.Path.{subst}
use vtafarm_api.Store.{SetupSession, Purpose, PoolBatch, PoolSession, User, Db, ok}
use vtafarm_api.Pool.Rows.{order_by, by_session_id, non_running_session_count}
use vtafarm_api.Pool.Identifiers.{Source, generate_unique_ids}
use vtafarm_api.Pool.Frame.{Outcome-cases, sum-cases}
use vtafarm_api.Pool.Filling.{
  Surroundings, inserted_users, by_user_id, session_candidates, inserted_sessions, settle_attempt,
  create_users_loop, create_sessions_loop, create_memberships, fill_batch,
}
use vtafarm_api.Pool.Bounded.{
  above_id, AreDifferent, IsConsistent, above-le-append, inserted_sessions-AreDifferent,
  count_join-inserted, count_join-append, count_join-le,
}
use vtafarm_api.Pool.Lengths.{
  create_users_loop-length, create_sessions_loop-length, length-order_by,
}
use vtafarm_api.Pool.Repeated.{admit_batch_row-Admitted, previous_batch-created}
use vtafarm_api.Pool.Admission.{
  Admission, AdmissionResult, is_batch_of, available, admit_batch_row, purpose_of, admit_created,
  admit,
}

-- The database stays consistent, with as many sessions that do not run.
abbrev KeepsCount : Db → Db → Type 0
KeepsCount db db' =
    IsConsistent db
    → IsConsistent db' × (non_running_session_count db' ≡ non_running_session_count db)

create_users_loop-KeepsCount :
    (source : Source) (attempts need : ℕ) (generated : List String) (at : ℕ) (db : Db)
    (us : List User) (db' : Db)
    → create_users_loop source attempts need generated at db ≡ ok us db'
    → (db'.sessions ≡ db.sessions) × (db'.members ≡ db.members)
unfolding create_users_loop
create_users_loop-KeepsCount source zero zero generated at db us db' h = ground (arith, h)
create_users_loop-KeepsCount source (suc attempts) zero generated at db us db' h = ground (arith, h)
create_users_loop-KeepsCount source zero (suc need) generated at db us db' h = cc h
create_users_loop-KeepsCount source (suc attempts) (suc need) generated at db us db' h =
    elim (sum-cases (generate_unique_ids source (suc need) generated at)) [
      | inl (e, x) ↦ ground (arith, h, x)
      | inr (d, x) ↦
          let rows = inserted_users d.names db.users in
          let db₁ = record db { users = db.users ++ rows } in
          let left = suc need - length rows in
          elim (Outcome-cases (create_users_loop source attempts left d.generated d.position db₁)) [
            | inl (e, d', y) ↦ ground (arith, h, x, y)
            | inr (later, d', y) ↦
                let ih =
                  create_users_loop-KeepsCount source attempts left d.generated d.position db₁ later
                    d' y in
                ground (arith, h, x, y, ih)
          ]
    ]

same_tables :
    (db db' : Db) → db'.sessions ≡ db.sessions → db'.members ≡ db.members → KeepsCount db db'
unfolding non_running_session_count
same_tables db db' s m c = (
  record {
    different = subst AreDifferent (sym s) c.different;
    members_below =
        subst (λ ss. All (λ (k : PoolSession). k.session_id < above_id ss) db'.members) (sym s)
          (subst (λ ms. All (λ (k : PoolSession). k.session_id < above_id db.sessions) ms) (sym m)
            c.members_below);
  },
  cc (s, m),
)

insert_sessions-KeepsCount :
    (cs : List SetupSession) (db : Db)
    → KeepsCount db (record db { sessions = db.sessions ++ inserted_sessions cs db.sessions })
unfolding non_running_session_count
insert_sessions-KeepsCount cs db c = (
  record {
    different = inserted_sessions-AreDifferent cs db.sessions c.different;
    members_below =
        All-imp (λ (m : PoolSession). m.session_id < above_id db.sessions)
          (λ (m : PoolSession).
            m.session_id < above_id (db.sessions ++ inserted_sessions cs db.sessions))
          db.members
          (λ m k. omega (arith, k, above-le-append db.sessions (inserted_sessions cs db.sessions)))
          c.members_below;
  },
  count_join-inserted db.members cs db.sessions c.members_below,
)

create_sessions_loop-KeepsCount :
    (now : ℕ) (source : Source) (template : SetupSession) (attempts : ℕ) (pending : List User)
    (generated : List String) (at : ℕ) (db : Db) (ss : List SetupSession) (db' : Db)
    → create_sessions_loop now source template attempts pending generated at db ≡ ok ss db'
    → KeepsCount db db'
unfolding create_sessions_loop
create_sessions_loop-KeepsCount now source template zero [] generated at db ss db' h c =
    subst (λ d. IsConsistent d × (non_running_session_count d ≡ non_running_session_count db))
      (ground (arith, h)) (c, refl)
create_sessions_loop-KeepsCount now source template (suc attempts) [] generated at db ss db' h c =
    subst (λ d. IsConsistent d × (non_running_session_count d ≡ non_running_session_count db))
      (ground (arith, h)) (c, refl)
create_sessions_loop-KeepsCount now source template zero (u ∷ us) generated at db ss db' h c = cc h
create_sessions_loop-KeepsCount now source template (suc attempts) (u ∷ us) generated at db ss db' h
      c =
    let pending = order_by by_user_id (u ∷ us) in
    elim (sum-cases (generate_unique_ids source (length pending) generated at)) [
      | inl (e, x) ↦ ground (arith, h, x)
      | inr (d, x) ↦
          let candidates = session_candidates now template pending d.names in
          let rows = inserted_sessions candidates db.sessions in
          let settled = settle_attempt pending candidates rows (db.sessions ++ rows) in
          let db₁ = record db { sessions = db.sessions ++ rows } in
          let (c₁, same) = insert_sessions-KeepsCount candidates db c in
          elim (Outcome-cases (
            create_sessions_loop now source template attempts settled.1 d.generated d.position
              db₁)) [
                | inl (e, d', y) ↦ ground (arith, h, x, y)
                | inr (later, d', y) ↦
                    let (c₂, same₂) =
                      create_sessions_loop-KeepsCount now source template attempts settled.1
                        d.generated d.position db₁ later d' y c₁ in
                    subst
                      (λ d.
                        IsConsistent d
                        × (non_running_session_count d ≡ non_running_session_count db))
                      (ground (arith, h, x, y)) (c₂, same₂ ∙ same)
              ]
    ]

create_memberships-le :
    (batch_id : ℕ) (ss : List SetupSession) (request limit : String) (db : Db) (u : Unit) (db' : Db)
    → create_memberships batch_id ss request limit db ≡ ok u db'
    → IsConsistent db
    → non_running_session_count db' ≤ non_running_session_count db + length ss
unfolding create_memberships non_running_session_count
create_memberships-le batch_id ss request limit db u db' h c =
    let f : SetupSession → PoolSession = λ s. record { session_id = s.id; batch_id = batch_id } in
    let new = map f ss in
    let here : (db'.sessions ≡ db.sessions) × (db'.members ≡ db.members ++ new) =
      ground (arith, h) in
    let bound = count_join-le db.sessions new c.different in
    rw (here.0, here.1, count_join-append db.sessions db.members new)
      (omega (arith, bound, length-map f ss))

fill_batch-le :
    (env : Surroundings) (batch_id count : ℕ) (template : SetupSession) (request limit : String)
    (db : Db) (ss : List SetupSession) (db' : Db)
    → fill_batch env batch_id count template request limit db ≡ ok ss db'
    → IsConsistent db
    → non_running_session_count db' ≤ non_running_session_count db + count
unfolding fill_batch
fill_batch-le env batch_id count template request limit db ss db' h c =
    elim (Outcome-cases (create_users_loop env.new_account_id 5 count [] 0 db)) [
      | inl (e, d, x) ↦ ground (arith, h, x)
      | inr (us, d, x) ↦
          let users = order_by by_user_id us in
          elim (Outcome-cases
            (create_sessions_loop env.now env.new_vta_name template 5 users [] 0 d)) [
              | inl (e, d', y) ↦ ground (arith, h, x, y)
              | inr (made, d', y) ↦
                  let sessions = order_by by_session_id made in
                  elim (Outcome-cases (create_memberships batch_id sessions request limit d')) [
                    | inl (e, d'', z) ↦ ground (arith, h, x, y, z)
                    | inr (w, d'', z) ↦
                        let last : d'' ≡ db' = ground (arith, h, x, y, z) in
                        subst
                          (λ k. non_running_session_count k ≤ non_running_session_count db + count)
                          last (filled us d made d' w d'' x y z)
                  ]
            ]
    ]
  where
    filled :
        (us : List User) (d : Db) (made : List SetupSession) (d' : Db) (w : Unit) (d'' : Db)
        → create_users_loop env.new_account_id 5 count [] 0 db ≡ ok us d
        → create_sessions_loop env.now env.new_vta_name template 5 (order_by by_user_id us) [] 0 d
          ≡ ok made d'
        → create_memberships batch_id (order_by by_session_id made) request limit d' ≡ ok w d''
        → non_running_session_count d'' ≤ non_running_session_count db + count
    filled us d made d' w d'' x y z =
        let tables = create_users_loop-KeepsCount env.new_account_id 5 count [] 0 db us d x in
        let (c₁, same₁) = same_tables db d tables.0 tables.1 c in
        let (c₂, same₂) =
          create_sessions_loop-KeepsCount env.now env.new_vta_name template 5
            (order_by by_user_id us) [] 0 d made d' y c₁ in
        let bound =
          create_memberships-le batch_id (order_by by_session_id made) request limit d' w d'' z
            c₂ in
        omega (
          arith,
          bound,
          same₁,
          same₂,
          length-order_by by_session_id made,
          length-order_by by_user_id us,
          create_users_loop-length env.new_account_id 5 count [] 0 db us d x,
          create_sessions_loop-length env.now env.new_vta_name template 5 (order_by by_user_id us)
              [] 0 d made d' y,
        )

-- A batch that is created fits in the capacity; one of an earlier request changes nothing.
abbrev pub Fits : ℕ → Db → Bool → Db → Type 0
Fits capacity db true db' = non_running_session_count db' ≤ capacity
Fits capacity db false db' = db' ≡ db

-- What the insertion of the batch leaves for the sessions.
abbrev Placed : Admission → Db → Bool → Db → Type 0
Placed input db true db' =
    (db'.sessions ≡ db.sessions)
    × (db'.members ≡ db.members)
    × (non_running_session_count db + input.count ≤ input.capacity)
Placed input db false db' = db' ≡ db

admit_batch_row-Placed :
    (now : ℕ) (input : Admission) (purpose : Purpose) (db : Db) (b : PoolBatch) (created : Bool)
    (db' : Db)
    → 0 < input.count
    → admit_batch_row now input purpose db ≡ ok (b, created) db'
    → Placed input db created db'
unfolding admit_batch_row non_running_session_count
admit_batch_row-Placed now input purpose db b false db' p h =
    (admit_batch_row-Admitted now input purpose db b false db' h).1
admit_batch_row-Placed now input purpose db b true db' p h =
    elim (Bool-cases (
      leb input.count (available input.capacity db)
      && not (any (is_batch_of input.admin_id input.key) db.batches))) [
        | inl t ↦ ground (arith, p, t, h)
        | inr t ↦
            let wrong = previous_batch-created input db b true db' (ground (arith, t, h)) in
            cc wrong
      ]

admit_created-Fits :
    (env : Surroundings) (input : Admission) (db : Db) (b : PoolBatch) (created : Bool) (d : Db)
    (r : AdmissionResult) (db' : Db)
    → IsConsistent db
    → Placed input db created d
    → admit_created env input (b, created) d ≡ ok r db'
    → Fits input.capacity db r.created db'
admit_created-Fits env input db b false d r db' c placed h =
    let answer : (r.created ≡ false) × (db' ≡ d) = ground (arith, h) in
    subst (λ x. Fits input.capacity db x db') (sym answer.0) (answer.1 ∙ placed)
admit_created-Fits env input db b true d r db' c (s, m, room) h =
    elim (Outcome-cases
      (fill_batch env b.id input.count input.session input.memory_request input.memory_limit d)) [
        | inl (e, x, k) ↦ ground (arith, h, k)
        | inr (ss, x, k) ↦
            let (c₁, same) = same_tables db d s m c in
            let bound =
              fill_batch-le env b.id input.count input.session input.memory_request
                input.memory_limit d ss x k c₁ in
            let answer : (r.created ≡ true) × (db' ≡ x) = ground (arith, h, k) in
            let here : non_running_session_count x ≤ input.capacity =
              omega (arith, bound, same, room) in
            subst (λ z. Fits input.capacity db z db') (sym answer.0)
              (subst (λ z. non_running_session_count z ≤ input.capacity) (sym answer.1) here)
      ]

-- Modelling internal/pool/store.go: from a database whose sessions have different ids and whose
-- memberships are of sessions that were inserted, where Admit creates a batch, the sessions of the
-- inventory that do not run are at most as many as the capacity afterwards; where it answers with an
-- earlier batch, nothing changes.
pub admit-Fits :
    (env : Surroundings) (input : Admission) (db : Db) (r : AdmissionResult) (db' : Db)
    → IsConsistent db
    → admit env input db ≡ ok r db'
    → Fits input.capacity db r.created db'
unfolding admit
admit-Fits env input db r db' c h = elim (Option-cases (purpose_of input.purpose)) [
  | inl p ↦ ground (arith, h, p)
  | inr (purpose, p) ↦ elim (Outcome-cases (admit_batch_row env.now input purpose db)) [
    | inl (e, d, x) ↦ ground (arith, h, p, x)
    | inr ((b, created), d, x) ↦ elim (Outcome-cases (admit_created env input (b, created) d)) [
      | inl (e, d', y) ↦ ground (arith, h, p, x, y)
      | inr (r', d', y) ↦
          let some_asked : 0 < input.count = ground (arith, h) in
          let fits =
            admit_created-Fits env input db b created d r' d' c
              (admit_batch_row-Placed env.now input purpose db b created d some_asked x) y in
          let same : (r' ≡ r) × (d' ≡ db') = ground (arith, h, p, x, y) in
          subst (λ z. Fits input.capacity db z.created db') same.0
            (subst (λ z. Fits input.capacity db r'.created z) same.1 fits)
    ]
  ]
]
