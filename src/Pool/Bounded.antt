-- ===== src/Pool/Bounded.antt =====
-- internal/pool/store.go: a batch that Admit creates fits in the capacity.
use vtafarm_api.Base.{
  ℕ, ◌+◌, ◌<◌, ◌≤◌, Bool, false, not, ◌&&◌, List, [], ◌∷◌, ◌++◌, str_eq, ◌==◌, any, count, length,
  ◌≡◌, refl, sym, ◌∙◌, arith, All, Bool-cases, inl, inr,
}
use mathlib.Core.Path.{subst}
use mathlib.Core.List.{append_assoc, append-nil}
use vtafarm_api.Store.{SetupSession, PoolSession, Db}
use vtafarm_api.Pool.Rows.{count_join}
use vtafarm_api.Pool.Filling.{above, inserted_sessions}
use vtafarm_api.Connection.Rules.{is_running}

abbrev pub has_id : ℕ → SetupSession → Bool
has_id id s = s.id == id

-- The ids of the sessions are all different, and memberships are of sessions that were inserted.
pub record IsConsistent (db : Db) : Type 0 where
  pub different : (id : ℕ) → count (has_id id) db.sessions ≤ 1
  pub members_below :
      All
        (λ (m : PoolSession). m.session_id < above (λ (s : SetupSession). s.id) db.sessions)
        db.members

count-append :
    {A : Type 0} (p : A → Bool) (xs ys : List A) → count p (xs ++ ys) ≡ count p xs + count p ys
unfolding count
count-append p [] ys = omega arith
count-append p (x ∷ xs) ys = ground (arith, count-append p xs ys)

abbrev pub above_id : List SetupSession → ℕ
above_id = above (λ (s : SetupSession). s.id)

above_positive : (xs : List SetupSession) → 1 ≤ above_id xs
above_positive [] = omega arith
above_positive (x ∷ xs) = omega (arith, above_positive xs)

pub above-le-append : (xs ys : List SetupSession) → above_id xs ≤ above_id (xs ++ ys)
above-le-append [] ys = above_positive ys
above-le-append (x ∷ xs) ys = omega (arith, above-le-append xs ys)

-- No row has an id that is above all.
count-above : (id : ℕ) (xs : List SetupSession) → above_id xs ≤ id → count (has_id id) xs ≡ 0
unfolding count
count-above id [] h = refl
count-above id (x ∷ xs) h = ground (arith, h, count-above id xs (omega (arith, h)))

abbrev pub AreDifferent : List SetupSession → Type 0
AreDifferent xs = (id : ℕ) → count (has_id id) xs ≤ 1

snoc-AreDifferent :
    (xs : List SetupSession) (s : SetupSession)
    → s.id ≡ above_id xs
    → AreDifferent xs
    → AreDifferent (xs ++ s ∷ [])
unfolding count
snoc-AreDifferent xs s here h id = elim (Bool-cases (s.id == id)) [
  | inl e ↦
      let none_yet = count-above id xs (ground (arith, here, e)) in
      ground (arith, e, none_yet, count-append (has_id id) xs (s ∷ []))
  | inr e ↦ ground (arith, e, h id, count-append (has_id id) xs (s ∷ []))
]

pub inserted_sessions-AreDifferent :
    (cs xs : List SetupSession) → AreDifferent xs → AreDifferent (xs ++ inserted_sessions cs xs)
unfolding inserted_sessions
inserted_sessions-AreDifferent [] xs h = subst AreDifferent (sym (append-nil xs)) h
inserted_sessions-AreDifferent (c ∷ cs) xs h =
    elim (Bool-cases (any (λ (s : SetupSession). str_eq s.vta_name c.vta_name) xs)) [
      | inl e ↦
          let here : xs ++ inserted_sessions cs xs ≡ xs ++ inserted_sessions (c ∷ cs) xs =
            ground (arith, e) in
          subst AreDifferent here (inserted_sessions-AreDifferent cs xs h)
      | inr e ↦
          let s = record c { id = above_id xs } in
          let here : (xs ++ s ∷ []) ++ inserted_sessions cs (xs ++ s ∷ [])
              ≡ xs ++ inserted_sessions (c ∷ cs) xs =
            append_assoc xs (s ∷ []) (inserted_sessions cs (xs ++ s ∷ [])) ∙ ground (arith, e) in
          subst AreDifferent here
            (inserted_sessions-AreDifferent cs (xs ++ s ∷ []) (snoc-AreDifferent xs s refl h))
    ]

abbrev is_counted : ℕ → SetupSession → Bool
is_counted id s = s.id == id && not (is_running s.status)

-- The rows that are added have ids that no row had.
count-inserted_sessions :
    (id : ℕ) (cs xs : List SetupSession)
    → id < above_id xs
    → count (is_counted id) (inserted_sessions cs xs) ≡ 0
unfolding inserted_sessions count
count-inserted_sessions id [] xs h = refl
count-inserted_sessions id (c ∷ cs) xs h =
    elim (Bool-cases (any (λ (s : SetupSession). str_eq s.vta_name c.vta_name) xs)) [
      | inl e ↦ ground (arith, e, count-inserted_sessions id cs xs h)
      | inr e ↦
          let s = record c { id = above_id xs } in
          let later =
            count-inserted_sessions id cs (xs ++ s ∷ [])
              (omega (arith, h, above-le-append xs (s ∷ []))) in
          let apart : (above_id xs == id) ≡ false = ground (arith, h) in
          ground (arith, e, later, apart)
    ]

pub count_join-inserted :
    (ms : List PoolSession) (cs xs : List SetupSession)
    → All (λ (m : PoolSession). m.session_id < above_id xs) ms
    → count_join (xs ++ inserted_sessions cs xs) ms ≡ count_join xs ms
unfolding count_join
count_join-inserted [] cs xs h = refl
count_join-inserted (m ∷ ms) cs xs h = ground (
  arith,
  count_join-inserted ms cs xs h.1,
  count-append (is_counted m.session_id) xs (inserted_sessions cs xs),
  count-inserted_sessions m.session_id cs xs h.0,
)

pub count_join-append :
    (xs : List SetupSession) (ms ns : List PoolSession)
    → count_join xs (ms ++ ns) ≡ count_join xs ms + count_join xs ns
unfolding count_join
count_join-append xs [] ns = omega arith
count_join-append xs (m ∷ ms) ns = ground (arith, count_join-append xs ms ns)

count-le : (id : ℕ) (xs : List SetupSession) → count (is_counted id) xs ≤ count (has_id id) xs
unfolding count
count-le id [] = omega arith
count-le id (x ∷ xs) = ground (arith, count-le id xs)

pub count_join-le :
    (xs : List SetupSession) (ms : List PoolSession)
    → AreDifferent xs
    → count_join xs ms ≤ length ms
unfolding count_join
count_join-le xs [] h = omega arith
count_join-le xs (m ∷ ms) h =
    omega (arith, count_join-le xs ms h, count-le m.session_id xs, h m.session_id)
