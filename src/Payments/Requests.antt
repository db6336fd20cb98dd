-- ===== src/Payments/Requests.antt =====
-- The life of a payment request in packages/api/src/modules/payments/payments.service.ts: creation,
-- payment, refusal, cancellation and expiry.
pub mod Outcomes
pub mod Settlement
pub mod Creation
pub mod Expiry
use kalam_network.Prelude.{
  ℕ, ◌+◌, ◌*◌, Text, empty_text, is_truthy, is_present, get_or, Bool, true, false, ◌&&◌, not,
  Option, none, some, List, [], ◌∷◌, ◌++◌, ltb, ◌==◌, if◌then◌else◌, is_some,
}
use kalam_network.Exec.{
  Result, ok, err, Exec, pure, throw, gets, or_throw, throw_if, modify, when, ◌>>=◌, ◌>>◌,
}
use kalam_network.Repo.{find_one, find_key, save, update_where}
use kalam_network.Custody.Units.{Currency}
use kalam_network.Payments.Types.{
  default_request_expiry_hours, RequestStatus, pending, paid, expired, declined, cancelled,
  status_eq, send, request_fulfillment, User, Membership, PaymentIndex, PaymentRequest, HcsContent,
  payment, payment_request, request_paid, request_declined, request_cancelled, PaymentError,
  request_expired, already_paid, already_declined, already_cancelled, not_actionable,
  cannot_pay_own, invalid_amount, missing_wallet, user_not_found, hcs_submission_failed, JwtPayload,
  State, Env, Payments,
}
use kalam_network.Payments.Steps.{
  column_is, if_truthy, now, new_id, submit_message, sanitized, validate_currency, validate_amount,
  find_request_or_fail, is_member_of, verify_membership, save_request, expire_request, auto_expire,
  execute_custody_transfer, wrap_execution, record_transaction, submit_if_topic, verify_if_topic,
  save_payment,
}

-- Whether a request has expired: the clock is read only if the status does not say so.
unfoldable pub has_expired : Env → PaymentRequest → Payments Bool
has_expired env r =
    if status_eq r.status expired then pure true else do t ← now env; pure (ltb r.expires_at t)

unfoldable pub expiry_time : Env → Option ℕ → Payments ℕ
expiry_time env (some t) = pure t
expiry_time env none = do t ← now env; pure (t + default_request_expiry_hours * 60 * 60 * 1000)

-- The submission of a new request: here a failure is thrown.
unfoldable pub submit_request : Env → Option Text → HcsContent → Payments (Option ℕ)
submit_request env none content = pure none
submit_request env (some topic) content =
    if is_truthy topic
    then (do
      seq ← submit_message env topic content
      n ← or_throw seq hcs_submission_failed
      pure (some n))
    else pure none

-- The conversation of the topic, if the user has a row of membership in it, left or not. Without a topic the query compares
-- the topic with `undefined`, and finds no row.
unfoldable pub conversation_of : Text → Option Text → Payments (Option Text)
conversation_of account none = pure none
conversation_of account (some topic) = do
  member ← gets (λ s. find_one (is_member_of account topic) s.members)
  pure (elim member [ none ↦ none | some m ↦ if_truthy (some m.conversation_id) ])

-- `createPaymentRequest`
unfoldable pub create_payment_request :
    Env → JwtPayload → Option Text → ℕ → Currency → Option Text → Option ℕ → Payments PaymentRequest
create_payment_request env user topic amount currency description custom_expires_at = do
  validate_currency currency
  validate_amount amount
  verify_if_topic user.hedera_account_id topic
  request_id ← new_id env
  expires_at ← expiry_time env custom_expires_at
  let remark = sanitized env description
  seq ←
      submit_request env topic
        (payment_request user.hedera_account_id amount currency remark request_id expires_at)
  conversation_id ← conversation_of user.hedera_account_id topic
  created_at ← now env
  let request : PaymentRequest = record {
    id = request_id;
    requester_user_id = user.sub;
    organization_id = none;
    conversation_id = conversation_id;
    hcs_topic_id = get_or topic empty_text;
    hcs_sequence_number = get_or seq 0;
    amount = amount;
    currency = currency;
    description = if_truthy remark;
    status = pending;
    paid_tx_id = none;
    paid_at = none;
    expires_at = expires_at;
    created_at = created_at;
  }
  save_request request
  pure request

-- `requester?.hederaAccountId`
unfoldable pub account_of : Option User → Option Text
account_of none = none
account_of (some u) = if_truthy u.hedera_account_id

-- The account of the requester, which is to be paid.
unfoldable pub find_payee : Text → Payments Text
find_payee user_id = do
  found ← gets (λ s. find_key User.id user_id s.users)
  or_throw (account_of found) missing_wallet

-- What `fulfillPaymentRequest` does once the transfer has succeeded with the given transaction.
unfoldable pub settle_request :
    Env → JwtPayload → PaymentRequest → Text → Option Text → Text → Payments PaymentRequest
settle_request env user request payee topic tx_id = do
  paid_at ← now env
  let settled = record request { status = paid; paid_tx_id = some tx_id; paid_at = some paid_at }
  save_request settled
  submit_if_topic env topic (request_paid user.hedera_account_id request.id tx_id paid_at) >>= λ _.
      do
        payment_id ← new_id env
        created_at ← now env
        save_payment (record {
          id = payment_id;
          sender_account_id = user.hedera_account_id;
          recipient_account_id = payee;
          amount = request.amount;
          currency = request.currency;
          hts_transaction_id = tx_id;
          hcs_topic_id = get_or topic empty_text;
          hcs_sequence_number = 0;
          payment_type = request_fulfillment;
          created_at = created_at;
        })
        record_transaction env (record {
          sender_user_id = user.sub;
          recipient_user_id = request.requester_user_id;
          amount = request.amount;
          currency = request.currency;
          hedera_tx_id = some tx_id;
          hcs_message_seq = none;
          conversation_id = request.conversation_id;
          payment_request_id = some request.id;
          payment_type = request_fulfillment;
          description = request.description;
          organization_id = request.organization_id;
        })
        pure settled

-- The transfer to the requester, and the records of it.
unfoldable pub pay_request :
    Env → JwtPayload → PaymentRequest → Text → Option Text → Payments PaymentRequest
pay_request env user request payee topic = do
  tx_id ←
      wrap_execution (execute_custody_transfer env user.sub payee request.amount request.currency)
  settle_request env user request payee topic tx_id

unfoldable pub expire_and_throw : PaymentRequest → Payments Unit
expire_and_throw r = do save_request (record r { status = expired }); throw request_expired

-- `fulfillPaymentRequest`: the guards, the transfer, the records.
unfoldable pub fulfill_payment_request :
    Env → JwtPayload → Text → Option Text → Payments PaymentRequest
fulfill_payment_request env user request_id topic = do
  request ← find_request_or_fail request_id
  throw_if (request.requester_user_id == user.sub) cannot_pay_own
  throw_if (status_eq request.status paid) already_paid
  throw_if (status_eq request.status declined) already_declined
  late ← has_expired env request
  when late (expire_and_throw request)
  payee ← find_payee request.requester_user_id
  pay_request env user request payee topic

-- The update message of a refusal or a cancellation: its failure is only logged.
unfoldable pub announce : Env → PaymentRequest → HcsContent → Payments PaymentRequest
announce env r content = submit_message env r.hcs_topic_id content >>= λ _. pure r

-- `declinePaymentRequest`
unfoldable pub decline_payment_request :
    Env → JwtPayload → Text → Option Text → Payments PaymentRequest
decline_payment_request env user request_id reason = do
  request ← find_request_or_fail request_id
  throw_if (request.requester_user_id == user.sub) not_actionable
  throw_if (status_eq request.status declined) already_declined
  throw_if (not (status_eq request.status pending)) not_actionable
  let refused = record request { status = declined }
  save_request refused
  announce env refused (request_declined user.hedera_account_id request.id reason)

-- `cancelPaymentRequest`
unfoldable pub cancel_payment_request : Env → JwtPayload → Text → Payments PaymentRequest
cancel_payment_request env user request_id = do
  request ← find_request_or_fail request_id
  throw_if (not (request.requester_user_id == user.sub)) not_actionable
  throw_if (status_eq request.status cancelled) already_cancelled
  throw_if (not (status_eq request.status pending)) not_actionable
  let withdrawn = record request { status = cancelled }
  save_request withdrawn
  announce env withdrawn (request_cancelled user.hedera_account_id request.id)

-- `getPaymentRequest`
unfoldable pub get_payment_request : Env → Text → Payments PaymentRequest
get_payment_request env request_id = do
  request ← find_request_or_fail request_id
  auto_expire env request

abbrev pub is_stale : ℕ → PaymentRequest → Bool
is_stale t r = status_eq r.status pending && ltb r.expires_at t

-- `expirePendingRequests`, the job that runs every minute.
unfoldable pub expire_pending_requests : Env → Payments Unit
expire_pending_requests env = do
  t ← now env
  modify (λ s. record s {
    requests = update_where (is_stale t) (λ r. record r { status = expired }) s.requests;
  })
