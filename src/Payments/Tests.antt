-- ===== src/Payments/Tests.antt =====
-- The payments service on a small database, and the theorems at that input.
use kalam_network.Prelude.{
  ◌+◌, ◌*◌, ◌%◌, ◌≡◌, ◌≤◌, refl, none, some, List, [], ◌∷◌, true, false, arith, inr, All,
}
use mathlib.Core.Option
use kalam_network.Exec.{ok, result, after}
use kalam_network.Repo.{find_one, find_key, save}
use kalam_network.Custody.{
  CustodyApi, CustodyState, completed, execute_transfer, build_asset_payload, create_and_poll,
  create_transaction, create_answer, poll_transaction_status, poll_loop, poll_step, transfer_body,
}
use kalam_network.Custody.Units.{tmusd, token, cent}
use kalam_network.Payments.Types.{
  User, PaymentRequest, JwtPayload, State, Env, pending, paid, cancelled, status_eq,
}
use kalam_network.Payments.Steps.{
  verify_membership, now, new_id, submit_if_topic, save_payment, record_transaction,
  execute_custody_transfer, on_custody, vault_of, wrap_execution, wrapped, custody_result,
  find_request_or_fail, save_request,
}
use kalam_network.Payments.Steps.Transfer.{Transfers, transfer, transfer-Transfers}
use kalam_network.Payments.Send.{send_payment}
use kalam_network.Payments.Send.Settlement.{Sends, send_payment-Sends}
use kalam_network.Payments.Requests.{
  is_stale, create_payment_request, fulfill_payment_request, cancel_payment_request,
  get_payment_request, expire_pending_requests, has_expired, pay_request, settle_request,
  find_payee, account_of,
}
use kalam_network.Payments.Requests.Outcomes.{
  Cancels, Shows, Fulfills, settled, cancel_payment_request-Cancels, get_payment_request-Shows,
  fulfill_payment_request-Fulfills,
}
use kalam_network.Payments.Requests.Creation.{Creates, create_payment_request-Creates}
use kalam_network.Payments.Requests.Expiry.{expire_at, expire_pending_requests_lem}
use kalam_network.Payments.Split.{per_person, create_requests}
use kalam_network.Payments.Split.Shares.{per_person_near, CreatesAll, create_requests-CreatesAll}
use kalam_network.Payments.Lifecycle.{Call, run, fulfills, cancels, expires, is_final}
use kalam_network.Payments.Lifecycle.Kept.{Continues}
use kalam_network.Payments.Lifecycle.Issued.{HasDistinctIds}
use kalam_network.Payments.Lifecycle.History.{
  request_history, final_request_stays, Completes, fulfill_payment_request-Completes,
}

-- An API whose second reply to a poll is decisive.
abbrev custody_api : CustodyApi
custody_api = record {
  configured = true;
  token_address = 5;
  create = λ n b. ok (some 77);
  poll = λ n id. ok (record { status = completed; tx_hash = some 88; explorer_url = none });
}

abbrev env : Env
env = record {
  clock = λ n. 1000 + n;
  uuid = λ n. 100 + n;
  submit = λ n. some n;
  sanitize = λ t. t;
  api = custody_api;
}

abbrev alice : JwtPayload
alice = record { sub = 1; hedera_account_id = 11 }

abbrev bob : JwtPayload
bob = record { sub = 2; hedera_account_id = 12 }

abbrev bob_row : User
bob_row = record { id = 2; hedera_account_id = some 12; key_id = some 22 }

-- Bob asks for two tokens; the identifier is the first that `uuidv4` has given.
abbrev owed : PaymentRequest
owed = record {
  id = 100;
  requester_user_id = 2;
  organization_id = none;
  conversation_id = some 31;
  hcs_topic_id = 41;
  hcs_sequence_number = 7;
  amount = 200_000_000;
  currency = tmusd;
  description = none;
  status = pending;
  paid_tx_id = none;
  paid_at = none;
  expires_at = 5000;
  created_at = 900;
}

abbrev withdrawn : PaymentRequest
withdrawn = record owed { status = cancelled }

abbrev finished : PaymentRequest
finished = record owed { status = paid; paid_tx_id = some 88; paid_at = some 950 }

abbrev book_of : PaymentRequest → State
book_of q = record {
  users = record { id = 1; hedera_account_id = some 11; key_id = some 21 } ∷ bob_row ∷ [];
  members =
      record { hedera_account_id = 11; left_at = none; conversation_id = 31; hcs_topic_id = 41 }
      ∷ record {
        hedera_account_id = 12;
        left_at = some 50;
        conversation_id = 31;
        hcs_topic_id = 41;
      }
      ∷ [];
  requests = q ∷ [];
  payments = [];
  transactions = [];
  messages = [];
  custody = record { posted = []; requests = 0 };
  readings = 5;
}

book_finds :
    (q : PaymentRequest) → q.id ≡ 100 → find_key PaymentRequest.id 100 (book_of q).requests ≡ some q
unfolding find_one
book_finds q e = ground arith

env-HasDistinctIds : HasDistinctIds env
env-HasDistinctIds i j h = omega arith

-- Alice pays: the request is settled with the transaction of the custody service.
fulfill_runs :
    result (fulfill_payment_request env alice 100 none) (book_of owed) ≡ ok (settled owed 88 1006)
unfolding fulfill_payment_request find_request_or_fail status_eq has_expired now find_payee
    account_of pay_request wrap_execution execute_custody_transfer vault_of on_custody wrapped
    custody_result execute_transfer build_asset_payload create_and_poll create_transaction
    create_answer poll_transaction_status poll_loop poll_step transfer_body settle_request new_id
    submit_if_topic save_request save_payment record_transaction find_one save
fulfill_runs = refl

calls : List Call
calls = fulfills alice 100 none ∷ cancels bob 100 ∷ expires ∷ []

final_request_stays_example :
    find_key PaymentRequest.id 100 (run env calls (book_of finished)).requests ≡ some finished
unfolding is_final
final_request_stays_example =
    final_request_stays env env-HasDistinctIds calls (book_of finished) 0 finished (omega arith)
      (book_finds finished refl) refl

request_history_example :
    Continues owed (find_key PaymentRequest.id 100 (run env calls (book_of owed)).requests)
request_history_example =
    request_history env env-HasDistinctIds calls (book_of owed) 0 owed (omega arith)
      (book_finds owed refl)

-- One who has left the conversation passes the check of the membership.
departed_passes : verify_membership 12 41 (book_of owed) ≡ (ok tt, book_of owed)
unfolding verify_membership find_one
departed_passes = refl

send_payment-Sends_example :
    let (r, s') = send_payment env alice 12 150_000_000 tmusd (some 41) none (book_of owed) in
    Sends env alice 12 150_000_000 tmusd (some 41) none (book_of owed) r s'
send_payment-Sends_example =
    send_payment-Sends env alice 12 150_000_000 tmusd (some 41) none (book_of owed)

fulfill_payment_request-Fulfills_example :
    let (r, s') = fulfill_payment_request env alice 100 none (book_of owed) in
    Fulfills env alice (book_of owed) owed r s'
fulfill_payment_request-Fulfills_example =
    fulfill_payment_request-Fulfills env alice 100 none (book_of owed) owed (book_finds owed refl)

-- The transfer that pays the cancelled request.
abbrev ticked_book : State
ticked_book = record (book_of withdrawn) { readings = 6 }

abbrev paid_book : State
paid_book = record ticked_book {
  custody = record {
    posted = transfer_body 21 12 200_000_000 tmusd (kalam_network.Custody.hts tmusd 5) ∷ [];
    requests = 2;
  };
}

transfer_runs : transfer env 1 12 200_000_000 tmusd ticked_book ≡ (ok 88, paid_book)
unfolding wrap_execution execute_custody_transfer vault_of on_custody wrapped custody_result
    execute_transfer build_asset_payload create_and_poll create_transaction create_answer
    poll_transaction_status poll_loop poll_step find_one
transfer_runs = refl

fulfill_payment_request-Completes_example :
    Completes env alice 100 none
      (book_of withdrawn)
      withdrawn
      12
      88
      1006
      (fulfill_payment_request env alice 100 none (book_of withdrawn))
unfolding account_of find_one
fulfill_payment_request-Completes_example =
    fulfill_payment_request-Completes env alice 100 none (book_of withdrawn) withdrawn 12 88
      paid_book.custody (book_finds withdrawn refl) (inr refl) (omega arith) (omega arith) refl
      transfer_runs

transfer-Transfers_example :
    let (r, s') = transfer env 1 12 200_000_000 tmusd (book_of owed) in
    Transfers (book_of owed) 1 12 200_000_000 tmusd r s'
transfer-Transfers_example = transfer-Transfers env 1 12 200_000_000 tmusd (book_of owed)

cancel_payment_request-Cancels_example :
    Cancels bob (book_of owed) (some owed) (cancel_payment_request env bob 100 (book_of owed))
cancel_payment_request-Cancels_example =
    cancel_payment_request-Cancels env bob 100 (book_of owed) (some owed) (book_finds owed refl)

get_payment_request-Shows_example :
    Shows env (book_of owed) owed (get_payment_request env 100 (book_of owed))
get_payment_request-Shows_example =
    get_payment_request-Shows env 100 (book_of owed) owed (book_finds owed refl)

create_payment_request-Creates_example :
    let (r, s') =
      create_payment_request env bob (some 41) 300_000_000 tmusd none none (book_of owed) in
    Creates env bob 300_000_000 tmusd (book_of owed) r s'
create_payment_request-Creates_example =
    create_payment_request-Creates env bob (some 41) 300_000_000 tmusd none none (book_of owed)

create_requests-CreatesAll_example :
    let (r, s') =
      create_requests env bob none tmusd none ((11, token) ∷ (13, token) ∷ []) (book_of owed) in
    CreatesAll bob ((11, token) ∷ (13, token) ∷ []) (book_of owed) r s'
create_requests-CreatesAll_example =
    create_requests-CreatesAll env bob none tmusd none ((11, token) ∷ (13, token) ∷ [])
      (book_of owed)

per_person_near_example :
    (2 * token ≤ 2 * (3 * per_person token 3) + 3 * cent)
    × (2 * (3 * per_person token 3) ≤ 2 * token + 3 * cent)
    × (per_person token 3 % cent ≡ 0)
per_person_near_example = per_person_near token 3 (omega arith)

expire_pending_requests_lem_example :
    All (λ r. is_stale 1005 r ≡ false) (after (expire_pending_requests env) (book_of owed)).requests
    × (find_key PaymentRequest.id 100 (after (expire_pending_requests env) (book_of owed)).requests
        ≡ Option.map (expire_at 1005) (find_key PaymentRequest.id 100 (book_of owed).requests))
expire_pending_requests_lem_example = expire_pending_requests_lem env (book_of owed) 100
