-- ===== src/Pool/Protected.antt =====
-- What the cleanup of the inventory may remove: QueueCleanup and QueueBatchCleanup of
-- internal/pool/store.go.
use vtafarm_api.Base.{
  ℕ, ◌≡◌, refl, ◌∙◌, ap, Bool, true, false, ◌&&◌, ◌||◌, List, [], ◌∷◌, none, some, arith, find,
  ◌==◌, leb, All, any, select, map, update_where, when, Bool-cases, inl, inr, is_some,
}
use mathlib.Core.Path.{subst, fun_ext}
use vtafarm_api.Store.{
  SetupSession, SessionStatus, ClaimStatus, MobileConnection, PoolBatch, Db, ok, err, pool_conflict,
}
use vtafarm_api.Connection.Rules.{lapse, withdraw, is_open, is_claimed}
use vtafarm_api.Pool.Rows.{order_by, insert_sorted}
use vtafarm_api.Pool.Cleanup.{
  is_in, is_due, is_removable, protects, may_clean, mark_deleting, queue_cleanup,
  queue_cleanup_bulk, queue_batch_cleanup, clean_members, member_ids, all_are,
}

is_in-insert : (x y : ℕ) (ys : List ℕ) → is_in x (insert_sorted leb y ys) ≡ (x == y || is_in x ys)
unfolding is_in insert_sorted
is_in-insert x y [] = refl
is_in-insert x y (z ∷ ys) = ground (arith, is_in-insert x y ys)

is_in-order_by : (x : ℕ) (ys : List ℕ) → is_in x (order_by leb ys) ≡ is_in x ys
unfolding is_in order_by
is_in-order_by x [] = refl
is_in-order_by x (y ∷ ys) =
    is_in-insert x y (order_by leb ys) ∙ ap (λ b. x == y || b) (is_in-order_by x ys)

-- The reservation of one of the sessions was confirmed at some time.
unfoldable pub was_confirmed : List ℕ → MobileConnection → Bool
was_confirmed ids c = is_in c.session_id ids && is_some c.confirmed_at

-- The two updates that come before the claims are counted.
abbrev expire_in : ℕ → List ℕ → List MobileConnection → List MobileConnection
expire_in now ids cs =
    update_where (λ c. is_in c.session_id ids && is_claimed c.status && is_due now c.confirm_by)
      (withdraw ClaimStatus.lapsed)
      (update_where (λ c. is_in c.session_id ids && is_open c.status && leb c.expires_at now) lapse
        cs)

any-map :
    (p q : MobileConnection → Bool) (f : MobileConnection → MobileConnection)
    (cs : List MobileConnection)
    → ((c : MobileConnection) → p c ≡ true → q (f c) ≡ true)
    → any p cs ≡ true
    → any q (map f cs) ≡ true
unfolding any
any-map p q f [] h a = a
any-map p q f (c ∷ cs) h a = elim (Bool-cases (p c)) [
  | inl e ↦ rw (h c e) refl
  | inr e ↦ ground (arith, any-map p q f cs h)
]

any-imp :
    (p q : MobileConnection → Bool) (cs : List MobileConnection)
    → ((c : MobileConnection) → p c ≡ true → q c ≡ true)
    → any p cs ≡ true
    → any q cs ≡ true
unfolding any
any-imp p q [] h a = a
any-imp p q (c ∷ cs) h a = elim (Bool-cases (p c)) [
  | inl e ↦ rw (h c e) refl
  | inr e ↦ ground (arith, any-imp p q cs h)
]

module _ (now : ℕ) (ids : List ℕ) where
  lapse_confirmed :
      (p : MobileConnection → Bool) (c : MobileConnection)
      → was_confirmed ids c ≡ true
      → was_confirmed ids (when p lapse c) ≡ true
  unfolding was_confirmed
  lapse_confirmed p c h = elim (Bool-cases (p c)) [ inl e ↦ rw e h | inr e ↦ rw e h ]

  withdraw_confirmed :
      (p : MobileConnection → Bool) (c : MobileConnection)
      → was_confirmed ids c ≡ true
      → was_confirmed ids (when p (withdraw ClaimStatus.lapsed) c) ≡ true
  unfolding was_confirmed
  withdraw_confirmed p c h = elim (Bool-cases (p c)) [ inl e ↦ rw e h | inr e ↦ rw e h ]

  protects_confirmed : (c : MobileConnection) → was_confirmed ids c ≡ true → protects ids c ≡ true
  unfolding was_confirmed protects
  protects_confirmed c h = elim (Bool-cases (is_some c.confirmed_at)) [
    | inl e ↦ rw e (ground arith)
    | inr e ↦ ground arith
  ]

  any-expire :
      (cs : List MobileConnection)
      → any (was_confirmed ids) cs ≡ true
      → any (protects ids) (expire_in now ids cs) ≡ true
  any-expire cs h =
      any-imp (was_confirmed ids) (protects ids) (expire_in now ids cs) protects_confirmed (
        any-map (was_confirmed ids) (was_confirmed ids) _ _ (withdraw_confirmed _)
          (any-map (was_confirmed ids) (was_confirmed ids) _ cs (lapse_confirmed _) h))

  bulk_protected :
      (db : Db)
      → any (was_confirmed ids) db.connections ≡ true
      → (d : Db) × (queue_cleanup_bulk now ids db ≡ err pool_conflict d)
  unfolding queue_cleanup_bulk
  bulk_protected db h = elim (Bool-cases (may_clean db ids)) [
    | inr m ↦ (db, ground arith)
    | inl m ↦ (
      record db { connections = expire_in now ids db.connections },
      ground (arith, any-expire db.connections h),
    )
  ]

any-ext :
    (ids : List ℕ) (cs : List MobileConnection)
    → any (was_confirmed (order_by leb ids)) cs ≡ any (was_confirmed ids) cs
any-ext ids cs =
    ap (λ p. any p cs)
      (fun_ext (λ c.
        unfold was_confirmed in
        ap (λ b. b && is_some c.confirmed_at) (is_in-order_by c.session_id ids)))

-- QueueCleanup refuses, and changes nothing, if a reservation of one of the sessions was confirmed
-- at some time: also if its activation failed, or the reservation has since ended.
pub confirmed_protected :
    (now : ℕ) (ids : List ℕ) (db : Db)
    → any (was_confirmed ids) db.connections ≡ true
    → queue_cleanup now ids db ≡ err pool_conflict db
unfolding queue_cleanup
confirmed_protected now ids db h =
    let (d, e) = bulk_protected now (order_by leb ids) db (any-ext ids db.connections ∙ h) in
    ground (arith, e)

none_confirmed : (cs : List MobileConnection) → any (was_confirmed []) cs ≡ false
unfolding any was_confirmed is_in
none_confirmed [] = refl
none_confirmed (c ∷ cs) = none_confirmed cs

clean_members_protected :
    (now : ℕ) (b : PoolBatch) (ids : List ℕ) (db : Db)
    → any (was_confirmed ids) db.connections ≡ true
    → (d : Db) × (clean_members now b ids db ≡ err pool_conflict d)
unfolding clean_members
clean_members_protected now b [] db h = absurd (cc (h, none_confirmed db.connections))
clean_members_protected now b (id ∷ ids) db h =
    let (d, e) = bulk_protected now (id ∷ ids) db h in (d, ground (arith, e))

-- QueueBatchCleanup of a batch that is there, and whose cleanup was not requested before, refuses,
-- and changes nothing, if a reservation of one of its members was confirmed at some time.
pub batch_protected :
    (now batch_id : ℕ) (db : Db) (b : PoolBatch)
    → find (λ (x : PoolBatch). x.id == batch_id) db.batches ≡ some b
    → b.cleanup_requested_at ≡ none
    → any (was_confirmed (member_ids db batch_id)) db.connections ≡ true
    → queue_batch_cleanup now batch_id db ≡ err pool_conflict db
unfolding queue_batch_cleanup
batch_protected now batch_id db b f r h =
    let (d, e) = clean_members_protected now b (member_ids db batch_id) db h in ground (arith, e)

all_are-All :
    {A : Type 0} (p q : A → Bool) (xs : List A)
    → all_are q (select p xs) ≡ true
    → All (λ x. p x ≡ true → q x ≡ true) xs
unfolding any select
all_are-All p q [] h = tt
all_are-All p q (x ∷ xs) h = elim (Bool-cases (p x)) [
  | inl e ↦ (λ _. ground arith, all_are-All p q xs (ground arith))
  | inr e ↦ (λ k. cc (e, k), all_are-All p q xs (ground arith))
]

and_left : (a b : Bool) → (a && b) ≡ true → a ≡ true
and_left a b h = ground arith

and_right : (a b : Bool) → (a && b) ≡ true → b ≡ true
and_right a b h = ground arith

-- The checks of the sessions, taken out of all the checks.
may_clean-removable :
    (db : Db) (ids : List ℕ)
    → may_clean db ids ≡ true
    → All (λ s. is_in s.id ids ≡ true → is_removable s ≡ true) db.sessions
unfolding may_clean
may_clean-removable db ids h =
    all_are-All (λ (s : SetupSession). is_in s.id ids) is_removable db.sessions
      (and_right _ _ (and_left _ _ (and_left _ _ h)))

bulk_ok :
    (now : ℕ) (ids : List ℕ) (db d : Db)
    → queue_cleanup_bulk now ids db ≡ ok tt d
    → (may_clean db ids ≡ true)
      × (d.sessions ≡ mark_deleting ids db.sessions)
      × (d.members ≡ db.members)
unfolding queue_cleanup_bulk
bulk_ok now ids db d h = ground arith

cleanup_bulk_ok :
    (now : ℕ) (ids : List ℕ) (db d : Db)
    → queue_cleanup now ids db ≡ ok tt d
    → queue_cleanup_bulk now (order_by leb ids) db ≡ ok tt d
unfolding queue_cleanup
cleanup_bulk_ok now ids db d h = ground arith

-- Where QueueCleanup succeeds, each of the sessions had no administrator and was waiting or failed,
-- none of their reservations was ever confirmed, and exactly these sessions are marked for
-- deletion; no membership has changed.
pub queue_cleanup_ok :
    (now : ℕ) (ids : List ℕ) (db d : Db)
    → queue_cleanup now ids db ≡ ok tt d
    → All (λ s. is_in s.id ids ≡ true → is_removable s ≡ true) db.sessions
      × (any (was_confirmed ids) db.connections ≡ false)
      × (d.sessions ≡ mark_deleting ids db.sessions)
      × (d.members ≡ db.members)
queue_cleanup_ok now ids db d h =
    let (m, s, k) = bulk_ok now (order_by leb ids) db d (cleanup_bulk_ok now ids db d h) in
    (
      subst
          (λ (f : ℕ → Bool).
            All (λ (s : SetupSession). f s.id ≡ true → is_removable s ≡ true) db.sessions)
          same (may_clean-removable db (order_by leb ids) m),
      elim (Bool-cases (any (was_confirmed ids) db.connections)) [
        | inl c ↦ absurd (cc (h, confirmed_protected now ids db c))
        | inr c ↦ c
      ],
      s
          ∙ ap
              (λ (f : ℕ → Bool).
                update_where (λ (s : SetupSession). f s.id)
                  (λ s. record s { status = SessionStatus.deleting }) db.sessions)
              same,
      k,
    )
  where
    same : ◌≡◌ {A = ℕ → Bool} (λ x. is_in x (order_by leb ids)) (λ x. is_in x ids)
    same = fun_ext (λ x. is_in-order_by x ids)
