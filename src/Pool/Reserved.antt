-- ===== src/Pool/Reserved.antt =====
-- What a reservation from the inventory hands out: Reserve of internal/pool/store.go.
use vtafarm_api.Base.{
  ℕ, ◌≡◌, refl, ◌∙◌, sym, ap, Bool, true, false, not, ◌&&◌, List, [], ◌∷◌, Option, none, some,
  arith, find, find_holds, ==→eq, ◌==◌, All, select, if◌then◌else◌, Option-cases, Bool-cases, inl,
  inr,
}
use mathlib.Core.Path.{subst}
use vtafarm_api.Store.{
  SetupSession, ClaimStatus, MobileConnection, Db, Outcome, ok, err, Error, conflict, cooldown,
}
use vtafarm_api.Connection.Rules.{latest}
use vtafarm_api.Connection.Reserve.{
  create, Fresh, change, change_pool, act, reserve as reserve_row, settle_current, new_reservation,
}
use vtafarm_api.Connection.Valid.{latest_session}
use vtafarm_api.Pool.Rows.{order_by, insert_sorted, is_member_of, has_live_claim, is_unclaimed}
use vtafarm_api.Pool.Claims.{or_next, reserve_first, is_candidate, candidates, reserve}

module _ {ℓ κ} {A : Type ℓ} (P : A → Type κ) where
  kept :
      (b : Bool) (x : A) (xs : List A)
      → (b ≡ true → P x)
      → All P xs
      → All P (if b then x ∷ xs else xs)
  kept true x xs h k = (h refl, k)
  kept false x xs h k = k

  placed :
      (b : Bool) (x y : A) (ys zs : List A)
      → P x
      → P y
      → All P ys
      → All P zs
      → All P (if b then x ∷ y ∷ ys else y ∷ zs)
  placed true x y ys zs h k l m = (h, (k, l))
  placed false x y ys zs h k l m = (k, m)

  All-insert :
      (before : A → A → Bool) (x : A) (ys : List A)
      → P x
      → All P ys
      → All P (insert_sorted before x ys)
  unfolding insert_sorted
  All-insert before x [] h k = (h, tt)
  All-insert before x (y ∷ ys) h k =
      placed (before x y) x y ys (insert_sorted before x ys) h k.0 k.1
        (All-insert before x ys h k.1)

  pub All-select : (p : A → Bool) (xs : List A) → ((x : A) → p x ≡ true → P x) → All P (select p xs)
  unfolding select
  All-select p [] h = tt
  All-select p (x ∷ xs) h = kept (p x) x (select p xs) (h x) (All-select p xs h)

  pub All-order_by : (before : A → A → Bool) (xs : List A) → All P xs → All P (order_by before xs)
  unfolding order_by
  All-order_by before [] h = tt
  All-order_by before (x ∷ xs) h =
      All-insert before x (order_by before xs) h.0 (All-order_by before xs h.1)

module _ (now : ℕ) (fresh : Fresh) where
  settle_keeps :
      (o : Option MobileConnection) (db d : Db) (c : MobileConnection)
      → settle_current now create o db ≡ ok (some c) d
      → (o ≡ some c) × (c.status ≡ ClaimStatus.open_)
  unfolding settle_current
  settle_keeps none db d c e = cc
  settle_keeps (some r) db d c e = ground arith

  reserve_row_ok :
      (s : SetupSession) (db d : Db) (c : MobileConnection)
      → reserve_row now fresh create true s (latest s.id db.connections) db ≡ ok c d
      → (c.session_id ≡ s.id) × (c.status ≡ ClaimStatus.open_)
  unfolding reserve_row new_reservation
  reserve_row_ok s db d c e = ground (
    arith,
    settle_keeps (latest s.id db.connections) db d c,
    latest_session s.id db.connections c,
  )

  -- ChangePool returns an open reservation of the session that it was given.
  change_pool_ok :
      (session_id : ℕ) (db d : Db) (c : MobileConnection)
      → change_pool now fresh session_id db ≡ ok c d
      → (c.session_id ≡ session_id) × (c.status ≡ ClaimStatus.open_)
  unfolding change act
  change_pool_ok session_id db d c e =
      elim (Option-cases (find (λ s. s.id == session_id) db.sessions)) [
        | inl f ↦ ground arith
        | inr (s, f) ↦
            let i : s.id ≡ session_id = ==→eq s.id session_id (find_holds _ db.sessions s f) in
            let row : reserve_row now fresh create true s (latest s.id db.connections) db ≡ ok c d =
              rw i (ground arith) in
            let (h, k) = reserve_row_ok s db d c row in (h ∙ i, k)
      ]

  -- A call of ChangePool that fails leaves the database as it was.
  change_pool_err :
      (session_id : ℕ) (db d : Db) (e : Error)
      → change_pool now fresh session_id db ≡ err e d
      → d ≡ db
  unfolding change
  change_pool_err session_id db d e h = ground arith

-- What is handed out: a session that waits without an administrator, with an open reservation.
abbrev pub Grants : Db → (ℕ → Type 0) → MobileConnection → Type 0
Grants db P c =
    (s : SetupSession) × (find (λ s. s.id == c.session_id) db.sessions ≡ some s)
    × (is_unclaimed s ≡ true)
    × P c.session_id
    × (c.status ≡ ClaimStatus.open_)

module _ (clock : ℕ → ℕ) (fresh : Fresh) (db : Db) (P : ℕ → Type 0) where
  try_ok :
      (id : ℕ) (s : SetupSession) (rest : Db → Outcome MobileConnection)
      (o : Outcome MobileConnection) (d : Db) (c : MobileConnection)
      → find (λ s. s.id == id) db.sessions ≡ some s
      → is_unclaimed s ≡ true
      → s.id ≡ id
      → P id
      → (rest db ≡ ok c d → Grants db P c)
      → change_pool (clock id) fresh id db ≡ o
      → or_next o rest ≡ ok c d
      → Grants db P c
  unfolding or_next
  try_ok id s rest (ok x y) d c f u i p k e h =
      let (a, b) = change_pool_ok (clock id) fresh id db d c (e ∙ h) in
      (
        s,
        ap (λ n. find (λ (s : SetupSession). s.id == n) db.sessions) a ∙ f,
        u,
        subst P (sym a) p,
        b,
      )
  try_ok id s rest (err conflict y) d c f u i p k e h =
      k (ap rest (sym (change_pool_err (clock id) fresh id db y conflict e)) ∙ h)
  try_ok id s rest (err cooldown y) d c f u i p k e h =
      k (ap rest (sym (change_pool_err (clock id) fresh id db y cooldown e)) ∙ h)
  try_ok id s rest (err x y) d c f u i p k e h = absurd (cc h)

  reserve_first_ok :
      (ss : List SetupSession) (d : Db) (c : MobileConnection)
      → All (λ s. P s.id) ss
      → reserve_first clock fresh ss db ≡ ok c d
      → Grants db P c
  unfolding reserve_first
  reserve_first_ok [] d c a h = absurd (cc h)
  reserve_first_ok (x ∷ ss) d c a h = elim (Option-cases (find (λ s. s.id == x.id) db.sessions)) [
    | inl f ↦ reserve_first_ok ss d c a.1 (ground arith)
    | inr (s, f) ↦ elim (Bool-cases (is_unclaimed s)) [
      | inr u ↦ reserve_first_ok ss d c a.1 (ground arith)
      | inl u ↦
          let i : s.id ≡ x.id = ==→eq s.id x.id (find_holds _ db.sessions s f) in
          try_ok x.id s (reserve_first clock fresh ss) (change_pool (clock x.id) fresh x.id db) d c
            f u i a.0 (reserve_first_ok ss d c a.1) refl
            (ap (λ n. or_next (change_pool (clock x.id) fresh n db) (reserve_first clock fresh ss))
                (sym i)
              ∙ ground arith)
    ]
  ]

and₃ : (a b e : Bool) → (a && b && not e) ≡ true → (a ≡ true) × (e ≡ false)
and₃ a b e h = ground arith

-- Reserve hands out a session that is a member of the batch, waits in the inventory without an
-- administrator and had no live claim; the reservation that it returns is that session's, and open.
pub reserve_ok :
    (now : ℕ) (clock : ℕ → ℕ) (fresh : Fresh) (batch_id : ℕ) (db d : Db) (c : MobileConnection)
    → reserve now clock fresh batch_id db ≡ ok c d
    → Grants db (λ id. (is_member_of db batch_id id ≡ true) × (has_live_claim now db id ≡ false)) c
unfolding reserve
reserve_ok now clock fresh batch_id db d c h =
    reserve_first_ok clock fresh db
      (λ id. (is_member_of db batch_id id ≡ true) × (has_live_claim now db id ≡ false))
      (candidates now db batch_id) d c all_free (ground arith)
  where
    all_free :
        All
          (λ s. (is_member_of db batch_id s.id ≡ true) × (has_live_claim now db s.id ≡ false))
          (candidates now db batch_id)
    all_free =
        unfold candidates in
        All-order_by
          (λ s. (is_member_of db batch_id s.id ≡ true) × (has_live_claim now db s.id ≡ false)) _ _
          (All-select
            (λ s. (is_member_of db batch_id s.id ≡ true) × (has_live_claim now db s.id ≡ false))
            (is_candidate now db batch_id) db.sessions
            (λ s k.
              and₃ (is_member_of db batch_id s.id) (is_unclaimed s) (has_live_claim now db s.id)
                (unfold is_candidate in k)))
