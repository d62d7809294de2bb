-- ===== src/Wallet/Exclusive.antt =====
-- internal/walletauth/store.go: one poll at a time waits for a login request.
use vtafarm_api.Base.{
  ℕ, ◌+◌, ◌<◌, ◌≤◌, String, Bool, true, false, ◌&&◌, ◌||◌, List, [], ◌∷◌, none, some, str_eq, ◌==◌,
  any, when, update_where, ◌≡◌, refl, sym, arith, All, All-imp, All-map, Bool-cases, inl, inr,
  any_of_All,
}
use mathlib.Core.Path.{subst}
use vtafarm_api.Wallet.Polls.{
  WalletLoginRequest, Requests, is_waiting, may_wait, acquire, is_held_by, release, Call, acquires,
  releases, left, call, calls, is_won,
}

-- The request, where it may be waited for, is held by the poll until the limit at least.
abbrev pub IsHeld : ℕ → String → String → WalletLoginRequest → Type 0
IsHeld limit id poll_id r =
    (str_eq r.request_id id && is_waiting r.state) ≡ true
    → (until : ℕ) × (r.redeem_poll ≡ some (poll_id, until)) × (limit ≤ until)

-- An acquisition before the limit, or a release of another poll.
abbrev pub IsApart : ℕ → String → Call → Type 0
IsApart limit poll_id (acquires now id other lease) = now < limit
IsApart limit poll_id (releases id other) = str_eq poll_id other ≡ false

module _ (limit : ℕ) (id poll_id : String) where
  held_busy :
      (now : ℕ) (r : WalletLoginRequest)
      → now < limit
      → IsHeld limit id poll_id r
      → may_wait now id r ≡ false
  held_busy now r early h = elim (Bool-cases (str_eq r.request_id id && is_waiting r.state)) [
    | inl e ↦ let (until, same, le) = h e in ground (arith, same, le, early)
    | inr e ↦ ground (arith, e)
  ]

  acquire-IsHeld :
      (now : ℕ) (id' other : String) (lease : ℕ) (r : WalletLoginRequest)
      → now < limit
      → IsHeld limit id poll_id r
      → IsHeld limit id poll_id
          (when (may_wait now id') (λ r. record r { redeem_poll = some (other, now + lease) }) r)
  acquire-IsHeld now id' other lease r early h =
      elim (Bool-cases (str_eq r.request_id id && is_waiting r.state)) [
        | inl e ↦
            let (until, same, le) = h e in
            let busy : may_wait now id' r ≡ false = ground (arith, same, le, early) in rw busy h
        | inr e ↦ elim (Bool-cases (may_wait now id' r)) [
          | inl t ↦ rw t (λ k. ground (arith, e, k))
          | inr t ↦ rw t h
        ]
      ]

  release-IsHeld :
      (id' other : String) (r : WalletLoginRequest)
      → str_eq poll_id other ≡ false
      → IsHeld limit id poll_id r
      → IsHeld limit id poll_id
          (when (is_held_by id' other) (λ r. record r { redeem_poll = none }) r)
  release-IsHeld id' other r apart h =
      elim (Bool-cases (str_eq r.request_id id && is_waiting r.state)) [
        | inl e ↦
            let (until, same, le) = h e in
            let kept : is_held_by id' other r ≡ false = ground (arith, same, apart) in rw kept h
        | inr e ↦ elim (Bool-cases (is_held_by id' other r)) [
          | inl t ↦ rw t (λ k. ground (arith, e, k))
          | inr t ↦ rw t h
        ]
      ]

  call-IsHeld :
      (c : Call) (rs : Requests)
      → IsApart limit poll_id c
      → All (IsHeld limit id poll_id) rs
      → All (IsHeld limit id poll_id) (call c rs)
  unfolding call acquire release
  call-IsHeld (acquires now id' other lease) rs early h =
      elim (Bool-cases (str_eq id' "" || str_eq other "" || lease == 0)) [
        | inl e ↦ rw e h
        | inr e ↦ rw e (
            All-map (IsHeld limit id poll_id) (IsHeld limit id poll_id) _ rs
              (λ r k. acquire-IsHeld now id' other lease r early k) h)
      ]
  call-IsHeld (releases id' other) rs apart h =
      All-map (IsHeld limit id poll_id) (IsHeld limit id poll_id) _ rs
        (λ r k. release-IsHeld id' other r apart k) h

  calls-IsHeld :
      (cs : List Call) (rs : Requests)
      → All (IsApart limit poll_id) cs
      → All (IsHeld limit id poll_id) rs
      → All (IsHeld limit id poll_id) (calls cs rs)
  unfolding calls
  calls-IsHeld [] rs early h = h
  calls-IsHeld (c ∷ cs) rs early h =
      calls-IsHeld cs (call c rs) early.1 (call-IsHeld c rs early.0 h)

update_none :
    (p : WalletLoginRequest → Bool) (f : WalletLoginRequest → WalletLoginRequest) (rs : Requests)
    → All (λ r. p r ≡ false) rs
    → update_where p f rs ≡ rs
update_none p f [] h = refl
update_none p f (r ∷ rs) h = rw (h.0, update_none p f rs h.1) refl

-- A request id names one row.
abbrev pub IsOnly : String → WalletLoginRequest → Requests → Type 0
IsOnly id r₀ rs = All (λ r. str_eq r.request_id id ≡ true → r ≡ r₀) rs

only_waits :
    (now : ℕ) (id : String) (r₀ : WalletLoginRequest) (rs : Requests)
    → IsOnly id r₀ rs
    → any (may_wait now id) rs ≡ true
    → may_wait now id r₀ ≡ true
unfolding any
only_waits now id r₀ [] only h = cc
only_waits now id r₀ (r ∷ rs) (same, only) h = elim (Bool-cases (may_wait now id r)) [
  | inl e ↦ subst (λ x. may_wait now id x ≡ true) (same (ground (arith, e))) e
  | inr e ↦ only_waits now id r₀ rs only (ground (arith, e, h))
]

won-IsHeld :
    (now : ℕ) (id poll_id : String) (lease : ℕ) (r₀ : WalletLoginRequest) (rs : Requests)
    → IsOnly id r₀ rs
    → may_wait now id r₀ ≡ true
    → All (IsHeld (now + lease) id poll_id) (
        update_where
          (may_wait now id)
          (λ r. record r { redeem_poll = some (poll_id, now + lease) })
          rs)
won-IsHeld now id poll_id lease r₀ [] only h = tt
won-IsHeld now id poll_id lease r₀ (r ∷ rs) (same, only) h =
    (held, won-IsHeld now id poll_id lease r₀ rs only h)
  where
    held :
        IsHeld
          (now + lease)
          id
          poll_id
          (when (may_wait now id) (λ r. record r { redeem_poll = some (poll_id, now + lease) }) r)
    held = elim (Bool-cases (str_eq r.request_id id)) [
      | inl e ↦
          let waits : may_wait now id r ≡ true =
            subst (λ x. may_wait now id x ≡ true) (sym (same e)) h in
          rw waits (λ k. (now + lease, refl, omega arith))
      | inr e ↦
          let still : may_wait now id r ≡ false = ground (arith, e) in
          rw still (λ k. ground (arith, e, k))
    ]

-- Modelling internal/walletauth/store.go: where AcquireRedeemPoll gives a poll the lease on a
-- request, whose id names one row, then after any calls before the lease runs out that acquire for
-- any request and poll, or release other polls, no poll acquires the request before the lease runs
-- out, and the attempt changes nothing.
pub exclusive_poll :
    (now : ℕ) (id poll_id : String) (lease : ℕ) (rs rs' : Requests) (r₀ : WalletLoginRequest)
    (cs : List Call) (at : ℕ) (other : String) (lease' : ℕ)
    → IsOnly id r₀ rs
    → acquire now id poll_id lease rs ≡ some (true, rs')
    → All (IsApart (now + lease) poll_id) cs
    → at < now + lease
    → (is_won (acquire at id other lease' (calls cs rs')) ≡ false)
      × (left (calls cs rs') (acquire at id other lease' (calls cs rs')) ≡ calls cs rs')
unfolding acquire
exclusive_poll now id poll_id lease rs rs' r₀ cs at other lease' only won apart early =
    let waits = only_waits now id r₀ rs only (ground (arith, won)) in
    let same : update_where (may_wait now id)
          (λ r. record r { redeem_poll = some (poll_id, now + lease) }) rs
        ≡ rs' =
      ground (arith, won) in
    let held = calls-IsHeld (now + lease) id poll_id cs rs' apart (
      subst (All (IsHeld (now + lease) id poll_id)) same
        (won-IsHeld now id poll_id lease r₀ rs only waits)) in
    let busy =
      All-imp (IsHeld (now + lease) id poll_id) (λ r. may_wait at id r ≡ false) (calls cs rs')
        (λ r k. held_busy (now + lease) id poll_id at r early k) held in
    let idle = any_of_All (may_wait at id) (calls cs rs') busy in
    let kept =
      update_none (may_wait at id) (λ r. record r { redeem_poll = some (other, at + lease') })
        (calls cs rs') busy in
    elim (Bool-cases (str_eq id "" || str_eq other "" || lease' == 0)) [
      | inl e ↦ rw e (refl, refl)
      | inr e ↦ rw e (idle, kept)
    ]
