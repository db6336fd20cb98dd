-- ===== src/Payments/Requests/Outcomes.antt =====
-- What each operation on a payment request leaves in the table of requests.
use kalam_network.Prelude.{
  ℕ, Text, ◌≡◌, ◌≢◌, ◌≤◌, ◌<◌, ◌+◌, is_some, ◌⊎◌, inl, inr, true, none, some, Option, arith,
  Option-cases,
}
use kalam_network.Exec.{Result, ok, err, IsErr, after}
use kalam_network.Repo.{find_key, save}
use kalam_network.Payments.Types.{
  pending, paid, expired, declined, cancelled, request_expired, status_eq, PaymentRequest,
  PaymentError, JwtPayload, State, Env, User, Payments,
}
use kalam_network.Payments.Steps.{
  now, new_id, submit_message, submit_if_topic, save_request, save_payment, record_transaction,
  find_request_or_fail, auto_expire, expire_request,
}
use kalam_network.Payments.Steps.Transfer.{transfer, transfer_frame}
use kalam_network.Payments.Requests.{
  settle_request, fulfill_payment_request, decline_payment_request, cancel_payment_request,
  announce, get_payment_request, has_expired, expire_and_throw, find_payee, pay_request, account_of,
}

abbrev pub settled : PaymentRequest → Text → ℕ → PaymentRequest
settled q tx_id at = record q { status = paid; paid_tx_id = some tx_id; paid_at = some at }

pub settle_request_lem :
    (env : Env) (user : JwtPayload) (q : PaymentRequest) (payee : Text) (topic : Option Text)
    (tx_id : Text) (s : State)
    → let (r, s') = settle_request env user q payee topic tx_id s in
      (r ≡ ok (settled q tx_id (env.clock s.readings)))
      × (s'.requests ≡ save PaymentRequest.id (settled q tx_id (env.clock s.readings)) s.requests)
      × (s'.custody ≡ s.custody)
unfolding settle_request now new_id submit_message submit_if_topic save_request save_payment
    record_transaction
settle_request_lem env user q payee topic tx_id s = ground arith

-- How a refusal ends, by the request that was found: it succeeds if the request is pending and of
-- another user, and is then saved as declined; otherwise it throws and leaves the state alone.
abbrev pub Declines :
    JwtPayload → State → Option PaymentRequest → Result PaymentError PaymentRequest × State → Type 0
Declines user s none (r, s') = IsErr r × (s' ≡ s)
Declines user s (some q) (r, s') =
    ((q.status ≡ pending)
      × (q.requester_user_id ≢ user.sub)
      × (r ≡ ok (record q { status = declined }))
      × (s'.requests ≡ save PaymentRequest.id (record q { status = declined }) s.requests))
    ⊎ (((q.status ≢ pending) ⊎ (q.requester_user_id ≡ user.sub)) × IsErr r × (s' ≡ s))

pub decline_payment_request-Declines :
    (env : Env) (user : JwtPayload) (id : Text) (reason : Option Text) (s : State)
    (found : Option PaymentRequest)
    → find_key PaymentRequest.id id s.requests ≡ found
    → Declines user s found (decline_payment_request env user id reason s)
unfolding decline_payment_request find_request_or_fail status_eq save_request announce
    submit_message
decline_payment_request-Declines env user id reason s none e = ground arith
decline_payment_request-Declines env user id reason s (some q) e = ground arith

-- How a cancellation ends: it succeeds if the request is pending and the user's own.
abbrev pub Cancels :
    JwtPayload → State → Option PaymentRequest → Result PaymentError PaymentRequest × State → Type 0
Cancels user s none (r, s') = IsErr r × (s' ≡ s)
Cancels user s (some q) (r, s') =
    ((q.status ≡ pending)
      × (q.requester_user_id ≡ user.sub)
      × (r ≡ ok (record q { status = cancelled }))
      × (s'.requests ≡ save PaymentRequest.id (record q { status = cancelled }) s.requests))
    ⊎ (((q.status ≢ pending) ⊎ (q.requester_user_id ≢ user.sub)) × IsErr r × (s' ≡ s))

-- A cancellation succeeds exactly if the request exists, is pending and is the user's own, and then
-- saves it as cancelled; otherwise it throws and leaves the whole state alone.
pub cancel_payment_request-Cancels :
    (env : Env) (user : JwtPayload) (id : Text) (s : State) (found : Option PaymentRequest)
    → find_key PaymentRequest.id id s.requests ≡ found
    → Cancels user s found (cancel_payment_request env user id s)
unfolding cancel_payment_request find_request_or_fail status_eq save_request announce submit_message
cancel_payment_request-Cancels env user id s none e = ground arith
cancel_payment_request-Cancels env user id s (some q) e = ground arith

-- How a look at a request ends: one that is pending and past its expiry is saved as expired.
abbrev pub Shows :
    Env → State → PaymentRequest → Result PaymentError PaymentRequest × State → Type 0
Shows env s q (r, s') =
    ((q.status ≡ pending)
      × (q.expires_at < env.clock s.readings)
      × (r ≡ ok (record q { status = expired }))
      × (s'.requests ≡ save PaymentRequest.id (record q { status = expired }) s.requests))
    ⊎ (((q.status ≢ pending) ⊎ (env.clock s.readings ≤ q.expires_at))
        × (r ≡ ok q)
        × (s'.requests ≡ s.requests))

-- A look at a request that exists ends as `Shows` says.
pub get_payment_request-Shows :
    (env : Env) (id : Text) (s : State) (q : PaymentRequest)
    → find_key PaymentRequest.id id s.requests ≡ some q
    → Shows env s q (get_payment_request env id s)
unfolding get_payment_request find_request_or_fail auto_expire expire_request now status_eq
    save_request
get_payment_request-Shows env id s q e = ground arith

-- A payment of a request, by its result. With success, the request was pending or cancelled, of
-- another user, and not past its expiry, and is saved as paid. With an error, the table of
-- requests is as it was, or the request was marked as expired or past its expiry, and is saved as
-- expired, with no call of custody.
abbrev pub Fulfills :
    Env → JwtPayload → State → PaymentRequest → Result PaymentError PaymentRequest → State → Type 0
Fulfills env user s q (ok q') s' =
    ((q.status ≡ pending) ⊎ (q.status ≡ cancelled))
    × (q.requester_user_id ≢ user.sub)
    × (env.clock s.readings ≤ q.expires_at)
    × (q' ≡ record q { status = paid; paid_tx_id = q'.paid_tx_id; paid_at = q'.paid_at })
    × (is_some q'.paid_tx_id ≡ true)
    × (s'.requests ≡ save PaymentRequest.id q' s.requests)
Fulfills env user s q (err e) s' =
    (s'.requests ≡ s.requests)
    ⊎ (((q.status ≡ pending) ⊎ (q.status ≡ cancelled) ⊎ (q.status ≡ expired))
        × ((q.status ≡ expired) ⊎ (q.expires_at < env.clock s.readings))
        × (e ≡ request_expired)
        × (s'.requests ≡ save PaymentRequest.id (record q { status = expired }) s.requests)
        × (s'.custody ≡ s.custody))

module _ (env : Env) (user : JwtPayload) (q : PaymentRequest) (topic : Option Text) where
  abbrev Pays : State → Result PaymentError PaymentRequest → State → Type 0
  Pays s (ok q') s' =
      (q' ≡ record q { status = paid; paid_tx_id = q'.paid_tx_id; paid_at = q'.paid_at })
      × (is_some q'.paid_tx_id ≡ true)
      × (s'.requests ≡ save PaymentRequest.id q' s.requests)
  Pays s (err e) s' = s'.requests ≡ s.requests

  pay_request-Pays :
      (payee : Text) (s : State) → let (r, s') = pay_request env user q payee topic s in Pays s r s'
  unfolding pay_request
  pay_request-Pays payee s = ground (
    arith,
    transfer_frame env user.sub payee q.amount q.currency s,
    settle_request_lem env user q payee topic (get_result (paid_by s).0) (paid_by s).1,
  )
    where
      paid_by : Payments Text
      paid_by = transfer env user.sub payee q.amount q.currency

      get_result : Result PaymentError Text → Text
      get_result (ok t) = t
      get_result (err e) = 0

module _ (env : Env) (user : JwtPayload) (id : Text) (topic : Option Text) (s : State)
    (q : PaymentRequest) where
  ticked : State
  ticked = record s { readings = s.readings + 1 }

  -- A payment of a request that exists, by its result. If it succeeds, the request was pending or
  -- cancelled, of another user and not past its expiry, and it is saved as paid with a transaction,
  -- all else unchanged. If it throws, the table of requests is as it was, or the request was marked
  -- as expired or the clock was past its expiry, and it is saved as expired, with no call of
  -- custody.
  pub fulfill_payment_request-Fulfills :
      find_key PaymentRequest.id id s.requests ≡ some q
      → let (r, s') = fulfill_payment_request env user id topic s in Fulfills env user s q r s'
  unfolding fulfill_payment_request find_request_or_fail status_eq has_expired now expire_and_throw
      save_request find_payee ticked
  fulfill_payment_request-Fulfills e =
      elim (Option-cases (account_of (find_key User.id q.requester_user_id s.users))) [
        | inl n ↦ ground arith
        | inr (payee, a) ↦ ground (arith, pay_request-Pays env user q topic payee ticked)
      ]

pub get_missing :
    (env : Env) (id : Text) (s : State)
    → find_key PaymentRequest.id id s.requests ≡ none
    → (after (get_payment_request env id) s).requests ≡ s.requests
unfolding get_payment_request find_request_or_fail
get_missing env id s e = ground arith

pub fulfill_missing :
    (env : Env) (user : JwtPayload) (id : Text) (topic : Option Text) (s : State)
    → find_key PaymentRequest.id id s.requests ≡ none
    → (after (fulfill_payment_request env user id topic) s).requests ≡ s.requests
unfolding fulfill_payment_request find_request_or_fail
fulfill_missing env user id topic s e = ground arith
