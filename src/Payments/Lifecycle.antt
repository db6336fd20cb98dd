-- ===== src/Payments/Lifecycle.antt =====
-- The life of a payment request under any sequence of calls of the payments service.
pub mod Kept
pub mod Issued
pub mod History
use kalam_network.Prelude.{ℕ, Text, Option, List, [], ◌∷◌, Bool, true, false}
use kalam_network.Exec.{after}
use kalam_network.Custody.Units.{Currency}
use kalam_network.Payments.Types.{
  RequestStatus, pending, paid, expired, declined, cancelled, JwtPayload, State, Env,
}
use kalam_network.Payments.Send.{send_payment}
use kalam_network.Payments.Requests.{
  create_payment_request, fulfill_payment_request, decline_payment_request, cancel_payment_request,
  get_payment_request, expire_pending_requests,
}
use kalam_network.Payments.Split.{SplitDto, create_split_payment}

-- A call of a public method that may change the state, with its arguments.
pub data Call : Type 0 where
  sends : JwtPayload → Text → ℕ → Currency → Option Text → Option Text → Call
  requests : JwtPayload → Option Text → ℕ → Currency → Option Text → Option ℕ → Call
  splits : JwtPayload → SplitDto → Call
  fulfills : JwtPayload → Text → Option Text → Call
  declines : JwtPayload → Text → Option Text → Call
  cancels : JwtPayload → Text → Call
  shows : Text → Call
  expires : Call

pub step : Env → Call → State → State
step env (sends user to amount currency topic remark) =
    after (send_payment env user to amount currency topic remark)
step env (requests user topic amount currency description expires_at) =
    after (create_payment_request env user topic amount currency description expires_at)
step env (splits user dto) = after (create_split_payment env user dto)
step env (fulfills user id topic) = after (fulfill_payment_request env user id topic)
step env (declines user id reason) = after (decline_payment_request env user id reason)
step env (cancels user id) = after (cancel_payment_request env user id)
step env (shows id) = after (get_payment_request env id)
step env expires = after (expire_pending_requests env)

-- The calls in their order, each from the state that the one before has left, also by throwing.
pub run : Env → List Call → State → State
run env [] s = s
run env (c ∷ cs) s = run env cs (step env c s)

-- Whether a request may come from one status to another in any number of calls.
unfoldable pub may_become : RequestStatus → RequestStatus → Bool
may_become pending b = true
may_become cancelled cancelled = true
may_become cancelled paid = true
may_become cancelled expired = true
may_become paid paid = true
may_become declined declined = true
may_become expired expired = true
may_become a b = false

unfoldable pub is_final : RequestStatus → Bool
is_final pending = false
is_final cancelled = false
is_final s = true
