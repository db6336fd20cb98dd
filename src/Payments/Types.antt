-- ===== src/Payments/Types.antt =====
-- The data of packages/api/src/modules/payments: the rows of its tables (packages/api/src/database/
-- entities), the messages that it submits to HCS topics, its exceptions and its state.
-- Identifiers and texts are codes (Prelude.Tests); times are milliseconds; amounts are whole numbers
-- of hundred-millionths of a token. A negative amount, which every path rejects, has no code here.
use kalam_network.Prelude.{ℕ, Text, Option, List, Bool, true, false}
use kalam_network.Exec.{Exec}
use kalam_network.Custody.{CustodyApi, CustodyState, CustodyError}
use kalam_network.Custody.Units.{Currency, cent}

-- PAYMENT_CONSTANTS
abbrev pub min_amount : ℕ
min_amount = cent

abbrev pub max_amount : ℕ
max_amount = 100_000_000_000_000

abbrev pub default_request_expiry_hours : ℕ
default_request_expiry_hours = 72

pub data RequestStatus : Type 0 where
  pending paid expired declined cancelled : RequestStatus

unfoldable pub status_eq : RequestStatus → RequestStatus → Bool
status_eq pending pending = true
status_eq paid paid = true
status_eq expired expired = true
status_eq declined declined = true
status_eq cancelled cancelled = true
status_eq a b = false

pub data PaymentType : Type 0 where
  send request_fulfillment split_payment : PaymentType

pub data SplitMethod : Type 0 where
  equal custom : SplitMethod

pub data Direction : Type 0 where
  sent received : Direction

pub record User : Type 0 where
  pub id : Text
  pub hedera_account_id : Option Text
  pub key_id : Option Text

-- A row of conversation_members, joined with its conversation. `left_at` is the time at which the
-- account has left or was removed, and the row stays; no query of the payments looks at it.
pub record Membership : Type 0 where
  pub hedera_account_id : Text
  pub left_at : Option ℕ
  pub conversation_id : Text
  pub hcs_topic_id : Text

pub record PaymentRequest : Type 0 where
  pub id : Text
  pub requester_user_id : Text
  pub organization_id : Option Text
  pub conversation_id : Option Text
  pub hcs_topic_id : Text
  pub hcs_sequence_number : ℕ
  pub amount : ℕ
  pub currency : Currency
  pub description : Option Text
  pub status : RequestStatus
  pub paid_tx_id : Option Text
  pub paid_at : Option ℕ
  pub expires_at : ℕ
  pub created_at : ℕ

-- Every row that the service writes has the status "confirmed" and an empty `tamamReference`.
pub record PaymentIndex : Type 0 where
  pub id : Text
  pub sender_account_id : Text
  pub recipient_account_id : Text
  pub amount : ℕ
  pub currency : Currency
  pub hts_transaction_id : Text
  pub hcs_topic_id : Text
  pub hcs_sequence_number : ℕ
  pub payment_type : PaymentType
  pub created_at : ℕ

-- Every row that the service writes has the status "completed".
pub record Transaction : Type 0 where
  pub id : Text
  pub user_id : Text
  pub counterparty_id : Text
  pub direction : Direction
  pub amount : ℕ
  pub currency : Currency
  pub payment_type : PaymentType
  pub completed_at : ℕ
  pub hedera_tx_id : Option Text
  pub hcs_message_seq : Option ℕ
  pub conversation_id : Option Text
  pub payment_request_id : Option Text
  pub description : Option Text
  pub organization_id : Option Text

-- The `content` of the payloads, with the sender or the `updatedBy` first.
pub data HcsContent : Type 0 where
  payment : Text → ℕ → Currency → Text → Text → Option Text → HcsContent
  payment_request : Text → ℕ → Currency → Option Text → Text → ℕ → HcsContent
  request_paid : Text → Text → Text → ℕ → HcsContent
  request_declined : Text → Text → Option Text → HcsContent
  request_cancelled : Text → Text → HcsContent
  split_created : Text → ℕ → Currency → SplitMethod → ℕ → List Text → Option Text → HcsContent

pub record HcsMessage : Type 0 where
  pub topic_id : Text
  pub timestamp : ℕ
  pub content : HcsContent

pub data PaymentError : Type 0 where
  request_not_found request_expired already_paid already_declined already_cancelled : PaymentError
  not_actionable not_participant cannot_pay_own invalid_amount invalid_currency : PaymentError
  missing_wallet user_not_found execution_failed hcs_submission_failed : PaymentError

-- What `executeCustodyTransfer` throws, before its callers wrap it.
pub data TransferError : Type 0 where
  no_vault : TransferError
  custody_failed : CustodyError → TransferError

pub record JwtPayload : Type 0 where
  pub sub : Text
  pub hedera_account_id : Text

-- The tables, the messages that HCS has accepted, the requests made to the custody API, and the
-- number of readings of the environment so far.
pub record State : Type 0 where
  pub users : List User
  pub members : List Membership
  pub requests : List PaymentRequest
  pub payments : List PaymentIndex
  pub transactions : List Transaction
  pub messages : List HcsMessage
  pub custody : CustodyState
  pub readings : ℕ

-- What the module does not implement, each as a function of the number of readings so far: the
-- clock, `uuidv4`, the answer of HCS to a submission (`none` if it throws); and `sanitizeHtml` with
-- `trim`, and the custody API.
pub record Env : Type 0 where
  pub clock : ℕ → ℕ
  pub uuid : ℕ → Text
  pub submit : ℕ → Option ℕ
  pub sanitize : Text → Text
  pub api : CustodyApi

abbrev pub Payments : Type 0 → Type 0
Payments A = Exec State PaymentError A
