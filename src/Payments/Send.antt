-- ===== src/Payments/Send.antt =====
-- `sendPayment` of packages/api/src/modules/payments/payments.service.ts.
pub mod Settlement
use kalam_network.Prelude.{
  ℕ, ◌+◌, ◌*◌, Text, empty_text, is_truthy, is_present, get_or, Bool, true, false, ◌&&◌, not,
  Option, none, some, List, [], ◌∷◌, ◌++◌, ltb, ◌==◌, if◌then◌else◌, is_some,
}
use kalam_network.Exec.{
  Result, ok, err, Exec, pure, throw, gets, or_throw, throw_if, modify, when, ◌>>=◌, ◌>>◌,
}
use kalam_network.Repo.{find_one, find_key, save, update_where}
use kalam_network.Custody.Units.{Currency}
use kalam_network.Payments.Types.{
  default_request_expiry_hours, RequestStatus, pending, paid, expired, declined, cancelled,
  status_eq, send, request_fulfillment, User, Membership, PaymentIndex, PaymentRequest, HcsContent,
  payment, payment_request, request_paid, request_declined, request_cancelled, PaymentError,
  request_expired, already_paid, already_declined, already_cancelled, not_actionable,
  cannot_pay_own, invalid_amount, missing_wallet, user_not_found, hcs_submission_failed, JwtPayload,
  State, Env, Payments,
}
use kalam_network.Payments.Steps.{
  TransactionParams, column_is, if_truthy, now, new_id, submit_message, sanitized,
  validate_currency, validate_amount, find_request_or_fail, is_member_of, verify_membership,
  save_request, expire_request, auto_expire, execute_custody_transfer, wrap_execution,
  record_transaction, submit_if_topic, verify_if_topic, save_payment,
}

unfoldable pub send_params :
    JwtPayload → User → ℕ → Currency → Option ℕ → Option Text → Text → TransactionParams
send_params user recipient amount currency seq remark tx_id = record {
  sender_user_id = user.sub;
  recipient_user_id = recipient.id;
  amount = amount;
  currency = currency;
  hedera_tx_id = some tx_id;
  hcs_message_seq = seq;
  conversation_id = none;
  payment_request_id = none;
  payment_type = send;
  description = remark;
  organization_id = none;
}

-- What `sendPayment` does once the transfer has succeeded with the given transaction.
unfoldable pub record_send :
    Env
    → JwtPayload
    → User
    → Text
    → ℕ
    → Currency
    → Option Text
    → Option Text
    → Text
    → Payments PaymentIndex
record_send env user recipient to amount currency topic remark tx_id = do
  seq ← submit_if_topic env topic (payment user.hedera_account_id amount currency to tx_id remark)
  payment_id ← new_id env
  created_at ← now env
  let row : PaymentIndex = record {
    id = payment_id;
    sender_account_id = user.hedera_account_id;
    recipient_account_id = to;
    amount = amount;
    currency = currency;
    hts_transaction_id = tx_id;
    hcs_topic_id = get_or topic empty_text;
    hcs_sequence_number = get_or seq 0;
    payment_type = send;
    created_at = created_at;
  }
  save_payment row
  record_transaction env (send_params user recipient amount currency seq remark tx_id)
  pure row

-- The transfer, and the records of it.
unfoldable pub transfer_and_record :
    Env
    → JwtPayload
    → User
    → Text
    → ℕ
    → Currency
    → Option Text
    → Option Text
    → Payments PaymentIndex
transfer_and_record env user recipient to amount currency topic remark = do
  tx_id ← wrap_execution (execute_custody_transfer env user.sub to amount currency)
  record_send env user recipient to amount currency topic remark tx_id

-- `sendPayment`, which answers with the row that it indexes.
unfoldable pub send_payment :
    Env → JwtPayload → Text → ℕ → Currency → Option Text → Option Text → Payments PaymentIndex
send_payment env user to amount currency topic remark = do
  validate_currency currency
  validate_amount amount
  throw_if (user.hedera_account_id == to) invalid_amount
  found ← gets (λ s. find_one (λ u. column_is u.hedera_account_id to) s.users)
  recipient ← or_throw found user_not_found
  verify_if_topic user.hedera_account_id topic
  transfer_and_record env user recipient to amount currency topic (sanitized env remark)
