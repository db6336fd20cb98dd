-- ===== src/Payments/Steps.antt =====
-- The private helpers of packages/api/src/modules/payments/payments.service.ts, and the calls that
-- it makes to its environment.
pub mod Transfer
use kalam_network.Prelude.{
  ℕ, ◌+◌, Text, empty_text, is_truthy, is_present, get_or, Bool, true, false, ◌&&◌, not, Option,
  none, some, List, [], ◌∷◌, ◌++◌, ltb, ◌==◌, if◌then◌else◌, is_some,
}
use kalam_network.Exec.{
  Result, ok, err, Exec, pure, throw, gets, or_throw, throw_if, modify, when, ◌>>=◌, ◌>>◌,
}
use kalam_network.Repo.{find_one, find_key, save}
pub use kalam_network.Repo.{column_is}
use kalam_network.Custody.{CustodyError, Transferred, execute_transfer}
use kalam_network.Custody.Units.{Currency, tmusd, currency_eq}
use kalam_network.Payments.Types.{
  min_amount, max_amount, pending, expired, status_eq, PaymentType, sent, received, User,
  Membership, PaymentRequest, PaymentIndex, Transaction, HcsContent, PaymentError,
  request_not_found, not_participant, invalid_amount, invalid_currency, execution_failed,
  TransferError, no_vault, custody_failed, State, Env, Payments,
}

-- `if (v) entity.field = v`: an empty or missing text, or a zero, leaves the field unset.
abbrev pub if_truthy : Option Text → Option Text
if_truthy none = none
if_truthy (some t) = if is_truthy t then some t else none

module _ {E : Type 0} (env : Env) where
  -- `new Date()`
  unfoldable pub now : Exec State E ℕ
  now s = (ok (env.clock s.readings), record s { readings = s.readings + 1 })

  -- `uuidv4()`
  unfoldable pub new_id : Exec State E Text
  new_id s = (ok (env.uuid s.readings), record s { readings = s.readings + 1 })

  -- `hederaService.submitMessage`, under the `try` that each call of it stands in.
  unfoldable pub submit_message : Text → HcsContent → Exec State E (Option ℕ)
  submit_message topic content s = elim (env.submit (s.readings + 1)) [
    | none ↦ (ok none, record s { readings = s.readings + 2 })
    | some seq ↦ (
      ok (some seq),
      record s {
        messages =
            s.messages
            ++ (record { topic_id = topic; timestamp = env.clock s.readings; content = content })
              ∷ [];
        readings = s.readings + 2;
      },
    )
  ]

-- `note ? sanitizeHtml(note, …).trim() : undefined`
unfoldable pub sanitized : Env → Option Text → Option Text
sanitized env none = none
sanitized env (some t) = if is_truthy t then some (env.sanitize t) else none

-- `validateCurrency`: SUPPORTED_CURRENCIES is ["TMUSD"].
unfoldable pub validate_currency : Currency → Payments Unit
validate_currency currency = throw_if (not (currency_eq currency tmusd)) invalid_currency

-- `validateAmount`
unfoldable pub validate_amount : ℕ → Payments Unit
validate_amount amount = do
  throw_if (ltb amount min_amount) invalid_amount
  throw_if (ltb max_amount amount) invalid_amount

-- `findPaymentRequestOrFail`
unfoldable pub find_request_or_fail : Text → Payments PaymentRequest
find_request_or_fail request_id = do
  found ← gets (λ s. find_key PaymentRequest.id request_id s.requests)
  or_throw found request_not_found

-- The query for the membership of an account in the conversation of a topic. It does not ask
-- whether the account has left.
abbrev pub is_member_of : Text → Text → Membership → Bool
is_member_of account topic m = m.hedera_account_id == account && m.hcs_topic_id == topic

-- `verifyConversationMembership`
unfoldable pub verify_membership : Text → Text → Payments Unit
verify_membership account topic = do
  member ← gets (λ s. find_one (is_member_of account topic) s.members)
  throw_if (not (is_some member)) not_participant

unfoldable pub save_request : PaymentRequest → Payments Unit
save_request r = modify (λ s. record s { requests = save PaymentRequest.id r s.requests })

unfoldable pub expire_request : PaymentRequest → Payments PaymentRequest
expire_request r = do
  save_request (record r { status = expired })
  pure (record r { status = expired })

-- `autoExpire`; the clock is read only for a pending request.
unfoldable pub auto_expire : Env → PaymentRequest → Payments PaymentRequest
auto_expire env r =
    if not (status_eq r.status pending)
    then pure r
    else do t ← now env; if ltb r.expires_at t then expire_request r else pure r

unfoldable pub custody_result : Result CustodyError Transferred → Result TransferError Transferred
custody_result (ok t) = ok t
custody_result (err e) = err (custody_failed e)

-- The call of the custody service, on its own state.
unfoldable pub on_custody : Env → Text → Text → ℕ → Currency → Exec State TransferError Transferred
on_custody env vault_id to amount currency s =
    let (r, c) = execute_transfer env.api vault_id to amount currency s.custody in
    (custody_result r, record s { custody = c })

-- `sender?.keyId`
unfoldable pub vault_of : Option User → Option Text
vault_of none = none
vault_of (some u) = if_truthy u.key_id

-- `executeCustodyTransfer`
unfoldable pub execute_custody_transfer :
    Env → Text → Text → ℕ → Currency → Exec State TransferError Text
execute_custody_transfer env sender_user_id to amount currency = do
  sender ← gets (λ s. find_key User.id sender_user_id s.users)
  key_id ← or_throw (vault_of sender) no_vault
  t ← on_custody env key_id to amount currency
  pure t.tx_hash

unfoldable pub wrapped : {A : Type 0} → Result TransferError A → Result PaymentError A
wrapped (ok a) = ok a
wrapped (err e) = err execution_failed

-- The `try` around it: whatever it throws is wrapped in a PaymentExecutionException.
unfoldable pub wrap_execution : {A : Type 0} → Exec State TransferError A → Payments A
wrap_execution m s = let (r, s') = m s in (wrapped r, s')

pub record TransactionParams : Type 0 where
  pub sender_user_id : Text
  pub recipient_user_id : Text
  pub amount : ℕ
  pub currency : Currency
  pub hedera_tx_id : Option Text
  pub hcs_message_seq : Option ℕ
  pub conversation_id : Option Text
  pub payment_request_id : Option Text
  pub payment_type : PaymentType
  pub description : Option Text
  pub organization_id : Option Text

unfoldable pub sender_row : TransactionParams → ℕ → Text → Transaction
sender_row p at id = record {
  id = id;
  user_id = p.sender_user_id;
  counterparty_id = p.recipient_user_id;
  direction = sent;
  amount = p.amount;
  currency = p.currency;
  payment_type = p.payment_type;
  completed_at = at;
  hedera_tx_id = if_truthy p.hedera_tx_id;
  hcs_message_seq = if_truthy p.hcs_message_seq;
  conversation_id = if_truthy p.conversation_id;
  payment_request_id = if_truthy p.payment_request_id;
  description = if_truthy p.description;
  organization_id = if_truthy p.organization_id;
}

-- The receiver's row does not carry the organization.
unfoldable pub receiver_row : TransactionParams → ℕ → Text → Transaction
receiver_row p at id = record {
  id = id;
  user_id = p.recipient_user_id;
  counterparty_id = p.sender_user_id;
  direction = received;
  amount = p.amount;
  currency = p.currency;
  payment_type = p.payment_type;
  completed_at = at;
  hedera_tx_id = if_truthy p.hedera_tx_id;
  hcs_message_seq = if_truthy p.hcs_message_seq;
  conversation_id = if_truthy p.conversation_id;
  payment_request_id = if_truthy p.payment_request_id;
  description = if_truthy p.description;
  organization_id = none;
}

-- `recordTransaction`
unfoldable pub record_transaction : Env → TransactionParams → Payments Unit
record_transaction env p = do
  at ← now env
  sender_id ← new_id env
  receiver_id ← new_id env
  modify (λ s. record s {
    transactions =
        save Transaction.id (receiver_row p at receiver_id)
          (save Transaction.id (sender_row p at sender_id) s.transactions);
  })

-- `if (topicId) try { submitMessage } catch { warn }`: what becomes of `hcsSequenceNumber`.
unfoldable pub submit_if_topic :
    {E : Type 0} → Env → Option Text → HcsContent → Exec State E (Option ℕ)
submit_if_topic env none content s = (ok none, s)
submit_if_topic env (some topic) content s =
    if is_truthy topic then submit_message env topic content s else (ok none, s)

unfoldable pub verify_if_topic : Text → Option Text → Payments Unit
verify_if_topic account none = pure tt
verify_if_topic account (some topic) = when (is_truthy topic) (verify_membership account topic)

unfoldable pub save_payment : PaymentIndex → Payments Unit
save_payment p = modify (λ s. record s { payments = save PaymentIndex.id p s.payments })
