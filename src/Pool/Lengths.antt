-- ===== src/Pool/Lengths.antt =====
-- internal/pool/store.go: how many users and sessions a batch gets at most.
use vtafarm_api.Base.{
  ℕ, zero, suc, ◌+◌, ◌-◌, ◌*◌, ◌<◌, ◌≤◌, String, Bool, true, false, not, List, [], ◌∷◌, ◌++◌, none,
  str_eq, ◌==◌, any, select, length, length-append, ◌≡◌, ◌⊎◌, refl, ap, ◌∙◌, arith, Bool-cases,
  Option-cases, inl, inr,
}
use vtafarm_api.Store.{SetupSession, User, Db, ok, Error}
use vtafarm_api.Pool.Rows.{order_by, insert_sorted, by_session_id}
use vtafarm_api.Pool.Identifiers.{
  Source, Drawn, keep, generate_loop, is_generated, generate_unique_ids,
}
use vtafarm_api.Pool.Frame.{Outcome-cases, sum-cases}
use vtafarm_api.Pool.Filling.{
  above, inserted_users, by_user_id, session_candidates, inserted_sessions, is_pending, without,
  settle_users, settle_attempt, create_users_loop, create_sessions_loop,
}

keep-length :
    (v : String) (r : Error ⊎ Drawn) (d : Drawn)
    → keep v r ≡ inr d
    → (d' : Drawn) × (r ≡ inr d') × (length d.names ≡ suc (length d'.names))
keep-length v (inl e) d h = cc h
keep-length v (inr d') d h = (d', refl, ground (arith, h))

generate_loop-length :
    (source : Source) (draws need : ℕ) (generated : List String) (at : ℕ) (d : Drawn)
    → generate_loop source draws need generated at ≡ inr d
    → length d.names ≡ need
unfolding generate_loop
generate_loop-length source zero zero generated at d h = ground (arith, h)
generate_loop-length source (suc draws) zero generated at d h = ground (arith, h)
generate_loop-length source zero (suc need) generated at d h = cc h
generate_loop-length source (suc draws) (suc need) generated at d h =
    elim (Option-cases (source at)) [
      | inl e ↦ ground (arith, h, e)
      | inr (v, e) ↦ elim (Bool-cases (is_generated v generated)) [
        | inl old ↦
            generate_loop-length source draws (suc need) generated (suc at) d
              (ground (arith, h, e, old))
        | inr new ↦
            let (d', k, size) =
              keep-length v (generate_loop source draws need (v ∷ generated) (suc at)) d
                (ground (arith, h, e, new)) in
            omega
              (arith, size, generate_loop-length source draws need (v ∷ generated) (suc at) d' k)
      ]
    ]

pub generate_unique_ids-length :
    (source : Source) (count : ℕ) (generated : List String) (at : ℕ) (d : Drawn)
    → generate_unique_ids source count generated at ≡ inr d
    → length d.names ≡ count
unfolding generate_unique_ids
generate_unique_ids-length source count generated at d h =
    generate_loop-length source (count * 20 + 100) count generated at d h

length-inserted_users :
    (names : List String) (users : List User) → length (inserted_users names users) ≤ length names
unfolding inserted_users
length-inserted_users [] users = omega arith
length-inserted_users (n ∷ names) users =
    elim (Bool-cases (any (λ (u : User). str_eq u.unique_id n) users)) [
      | inl e ↦ ground (arith, e, length-inserted_users names users)
      | inr e ↦
          let u : User = record {
            id = above (λ (v : User). v.id) users;
            unique_id = n;
            email = none;
            fullstack_access = false;
            passkeys = 0;
          } in
          ground (arith, e, length-inserted_users names (users ++ u ∷ []))
    ]

length-inserted_sessions :
    (cs xs : List SetupSession) → length (inserted_sessions cs xs) ≤ length cs
unfolding inserted_sessions
length-inserted_sessions [] xs = omega arith
length-inserted_sessions (c ∷ cs) xs =
    elim (Bool-cases (any (λ (s : SetupSession). str_eq s.vta_name c.vta_name) xs)) [
      | inl e ↦ ground (arith, e, length-inserted_sessions cs xs)
      | inr e ↦
          let s = record c { id = above (λ (t : SetupSession). t.id) xs } in
          ground (arith, e, length-inserted_sessions cs (xs ++ s ∷ []))
    ]

length-session_candidates :
    (now : ℕ) (template : SetupSession) (us : List User) (ns : List String)
    → length (session_candidates now template us ns) ≤ length us
unfolding session_candidates
length-session_candidates now template [] ns = omega arith
length-session_candidates now template (u ∷ us) [] = omega arith
length-session_candidates now template (u ∷ us) (n ∷ ns) =
    omega (arith, length-session_candidates now template us ns)

length-insert_sorted :
    {A : Type 0} (before : A → A → Bool) (x : A) (xs : List A)
    → length (insert_sorted before x xs) ≡ suc (length xs)
unfolding insert_sorted
length-insert_sorted before x [] = refl
length-insert_sorted before x (y ∷ ys) = ground (arith, length-insert_sorted before x ys)

pub length-order_by :
    {A : Type 0} (before : A → A → Bool) (xs : List A) → length (order_by before xs) ≡ length xs
unfolding order_by
length-order_by before [] = refl
length-order_by before (x ∷ xs) =
    length-insert_sorted before x (order_by before xs) ∙ ap suc (length-order_by before xs)

length-select : {A : Type 0} (p : A → Bool) (xs : List A) → length (select p xs) ≤ length xs
unfolding select
length-select p [] = omega arith
length-select p (x ∷ xs) = ground (arith, length-select p xs)

length-without :
    (us : List User) (id : ℕ) → is_pending us id ≡ true → length (without us id) < length us
unfolding is_pending any select
length-without [] id h = cc h
length-without (u ∷ us) id h = elim (Bool-cases (u.id == id)) [
  | inl e ↦ ground (arith, e, length-select (λ (v : User). not (v.id == id)) us)
  | inr e ↦ ground (arith, e, h, length-without us id)
]

length-settle_users :
    (ss : List SetupSession) (us : List User)
    → length (settle_users ss us).0 + length (settle_users ss us).1 ≤ length us
unfolding settle_users
length-settle_users [] us = omega arith
length-settle_users (s ∷ ss) us = elim (Bool-cases (is_pending us s.user_id)) [
  | inl e ↦
      ground
        (arith, e, length-without us s.user_id e, length-settle_users ss (without us s.user_id))
  | inr e ↦ ground (arith, e, length-settle_users ss us)
]

length-settle_attempt :
    (us : List User) (cs rows xs : List SetupSession)
    → length rows ≤ length us
    → length (settle_attempt us cs rows xs).0 + length (settle_attempt us cs rows xs).1 ≤ length us
unfolding settle_attempt
length-settle_attempt us cs rows xs h =
    let found =
      order_by by_session_id (select (λ (s : SetupSession). is_pending us s.user_id) xs) in
    elim (Bool-cases (length rows == length cs)) [
      | inl e ↦ ground (arith, e, h)
      | inr e ↦ ground (arith, e, length-settle_users found us)
    ]

pub create_users_loop-length :
    (source : Source) (attempts need : ℕ) (generated : List String) (at : ℕ) (db : Db)
    (us : List User) (db' : Db)
    → create_users_loop source attempts need generated at db ≡ ok us db'
    → length us ≤ need
unfolding create_users_loop
create_users_loop-length source zero zero generated at db us db' h = ground (arith, h)
create_users_loop-length source (suc attempts) zero generated at db us db' h = ground (arith, h)
create_users_loop-length source zero (suc need) generated at db us db' h = cc h
create_users_loop-length source (suc attempts) (suc need) generated at db us db' h =
    elim (sum-cases (generate_unique_ids source (suc need) generated at)) [
      | inl (e, x) ↦ ground (arith, h, x)
      | inr (d, x) ↦
          let rows = inserted_users d.names db.users in
          let db₁ = record db { users = db.users ++ rows } in
          let left = suc need - length rows in
          elim (Outcome-cases (create_users_loop source attempts left d.generated d.position db₁)) [
            | inl (e, d', y) ↦ ground (arith, h, x, y)
            | inr (later, d', y) ↦
                let ih =
                  create_users_loop-length source attempts left d.generated d.position db₁ later d'
                    y in
                ground (
                  arith,
                  h,
                  x,
                  y,
                  ih,
                  length-append rows later,
                  length-inserted_users d.names db.users,
                  generate_unique_ids-length source (suc need) generated at d x,
                )
          ]
    ]

pub create_sessions_loop-length :
    (now : ℕ) (source : Source) (template : SetupSession) (attempts : ℕ) (pending : List User)
    (generated : List String) (at : ℕ) (db : Db) (ss : List SetupSession) (db' : Db)
    → create_sessions_loop now source template attempts pending generated at db ≡ ok ss db'
    → length ss ≤ length pending
unfolding create_sessions_loop
create_sessions_loop-length now source template zero [] generated at db ss db' h = ground (arith, h)
create_sessions_loop-length now source template (suc attempts) [] generated at db ss db' h =
    ground (arith, h)
create_sessions_loop-length now source template zero (u ∷ us) generated at db ss db' h = cc h
create_sessions_loop-length now source template (suc attempts) (u ∷ us) generated at db ss db' h =
    let pending = order_by by_user_id (u ∷ us) in
    elim (sum-cases (generate_unique_ids source (length pending) generated at)) [
      | inl (e, x) ↦ ground (arith, h, x)
      | inr (d, x) ↦
          let candidates = session_candidates now template pending d.names in
          let rows = inserted_sessions candidates db.sessions in
          let settled = settle_attempt pending candidates rows (db.sessions ++ rows) in
          let db₁ = record db { sessions = db.sessions ++ rows } in
          let small : length rows ≤ length pending = omega (
            arith,
            length-inserted_sessions candidates db.sessions,
            length-session_candidates now template pending d.names,
          ) in
          elim (Outcome-cases (
            create_sessions_loop now source template attempts settled.1 d.generated d.position
              db₁)) [
                | inl (e, d', y) ↦ ground (arith, h, x, y)
                | inr (later, d', y) ↦
                    let ih =
                      create_sessions_loop-length now source template attempts settled.1 d.generated
                        d.position db₁ later d' y in
                    let same : ss ≡ settled.0 ++ later = ground (arith, h, x, y) in
                    rw same (
                      omega (
                        arith,
                        ih,
                        length-append settled.0 later,
                        length-settle_attempt pending candidates rows (db.sessions ++ rows) small,
                        length-order_by by_user_id (u ∷ us),
                      ))
              ]
    ]
