-- ===== src/Payments/Requests/Settlement.antt =====
-- What a request that is settled has written (`fulfillPaymentRequest` after the custody transfer).
use kalam_network.Prelude.{ℕ, Text, ◌≡◌, ◌+◌, ◌-◌, some, none, Option, arith, get_or, empty_text}
use kalam_network.Exec.{after}
use kalam_network.Repo.{save}
use kalam_network.Payments.Types.{
  request_fulfillment, PaymentIndex, PaymentRequest, Transaction, JwtPayload, State, Env,
}
use kalam_network.Payments.Steps.{
  now, new_id, submit_message, submit_if_topic, save_request, save_payment, record_transaction,
  TransactionParams, sender_row, receiver_row,
}
use kalam_network.Payments.Requests.{settle_request}

-- The parties and the amount of the payment of a request.
abbrev pub paying_params : JwtPayload → PaymentRequest → Text → TransactionParams
paying_params user q tx_id = record {
  sender_user_id = user.sub;
  recipient_user_id = q.requester_user_id;
  amount = q.amount;
  currency = q.currency;
  hedera_tx_id = some tx_id;
  hcs_message_seq = none;
  conversation_id = q.conversation_id;
  payment_request_id = some q.id;
  payment_type = request_fulfillment;
  description = q.description;
  organization_id = q.organization_id;
}

-- The row of the index of payments, written when `m` readings had been made.
abbrev pub paying_row :
    Env → JwtPayload → PaymentRequest → Text → Option Text → Text → ℕ → PaymentIndex
paying_row env user q payee topic tx_id m = record {
  id = env.uuid m;
  sender_account_id = user.hedera_account_id;
  recipient_account_id = payee;
  amount = q.amount;
  currency = q.currency;
  hts_transaction_id = tx_id;
  hcs_topic_id = get_or topic empty_text;
  hcs_sequence_number = 0;
  payment_type = request_fulfillment;
  created_at = env.clock (m + 1);
}

-- One payment and two transactions, for who pays and for who is paid, have been written by the last
-- five readings.
abbrev pub HasRecorded :
    Env → JwtPayload → PaymentRequest → Text → Option Text → Text → State → State → Type 0
HasRecorded env user q payee topic tx_id s s' =
    (s'.payments
      ≡ save PaymentIndex.id (paying_row env user q payee topic tx_id (s'.readings - 5)) s.payments)
    × (s'.transactions
        ≡ save Transaction.id
            (receiver_row (paying_params user q tx_id) (env.clock (s'.readings - 3))
              (env.uuid (s'.readings - 1)))
            (save Transaction.id
              (sender_row (paying_params user q tx_id) (env.clock (s'.readings - 3))
                (env.uuid (s'.readings - 2)))
              s.transactions))

pub settle_request-HasRecorded :
    (env : Env) (user : JwtPayload) (q : PaymentRequest) (payee : Text) (topic : Option Text)
    (tx_id : Text) (s : State)
    → HasRecorded env user q payee topic tx_id s
        (after (settle_request env user q payee topic tx_id) s)
unfolding settle_request now new_id submit_message submit_if_topic save_request save_payment
    record_transaction
settle_request-HasRecorded env user q payee topic tx_id s = ground arith
