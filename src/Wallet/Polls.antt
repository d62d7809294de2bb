-- ===== src/Wallet/Polls.antt =====
-- internal/walletauth/store.go: AcquireRedeemPoll and ReleaseRedeemPoll, on the table of login
-- requests, of which the columns that they read and write are kept. A request that does not name
-- a poll, or has no lease, is an error and writes nothing.
use vtafarm_api.Base.{
  ℕ, ◌+◌, String, Bool, true, false, ◌&&◌, ◌||◌, List, [], ◌∷◌, Option, none, some, str_eq,
  if◌then◌else◌, ◌==◌, any, update_where,
}
use vtafarm_api.Connection.Settle.{is_poll_free, holds_poll}

pub data RequestState : Type 0 where
  pending claimed identified approved declined cancelled expired consumed : RequestState

pub record WalletLoginRequest : Type 0 where
  pub request_id : String
  pub state : RequestState
  pub redeem_poll : Option (String × ℕ)

abbrev pub Requests : Type 0
Requests = List WalletLoginRequest

-- The states in which a poll may wait.
abbrev pub is_waiting : RequestState → Bool
is_waiting RequestState.pending = true
is_waiting RequestState.claimed = true
is_waiting RequestState.identified = true
is_waiting _ = false

abbrev pub may_wait : ℕ → String → WalletLoginRequest → Bool
may_wait now id r = str_eq r.request_id id && is_waiting r.state && is_poll_free now r.redeem_poll

-- AcquireRedeemPoll; `none` for the error.
unfoldable pub acquire : ℕ → String → String → ℕ → Requests → Option (Bool × Requests)
acquire now id poll_id lease rs =
    if str_eq id "" || str_eq poll_id "" || lease == 0
    then none
    else some (
      any (may_wait now id) rs,
      update_where (may_wait now id) (λ r. record r { redeem_poll = some (poll_id, now + lease) })
          rs,
    )

abbrev pub is_held_by : String → String → WalletLoginRequest → Bool
is_held_by id poll_id r = str_eq r.request_id id && holds_poll poll_id r.redeem_poll

-- ReleaseRedeemPoll
unfoldable pub release : String → String → Requests → Requests
release id poll_id rs =
    update_where (is_held_by id poll_id) (λ r. record r { redeem_poll = none }) rs

-- One call of either, and a sequence of calls.
pub data Call : Type 0 where
  acquires : ℕ → String → String → ℕ → Call
  releases : String → String → Call

abbrev pub left : Requests → Option (Bool × Requests) → Requests
left rs none = rs
left rs (some (won, rs')) = rs'

unfoldable pub call : Call → Requests → Requests
unfolding acquire release
call (acquires now id poll_id lease) rs = left rs (acquire now id poll_id lease rs)
call (releases id poll_id) rs = release id poll_id rs

unfoldable pub calls : List Call → Requests → Requests
unfolding call
calls [] rs = rs
calls (c ∷ cs) rs = calls cs (call c rs)

-- The call was answered with a lease.
abbrev pub is_won : Option (Bool × Requests) → Bool
is_won none = false
is_won (some (won, rs)) = won
