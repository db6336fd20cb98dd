-- ===== src/Custody.antt =====
-- packages/api/src/modules/integrations/tamam-custody/tamam-custody.service.ts: the transfer through
-- the custody API, which is created by one POST and then polled until it reaches a terminal status.
-- `authenticatedRequest`, the HTTP call, is a parameter: its reply is a function of the number of
-- requests made so far, and it throws by answering `err`. `posted` records the bodies of the POSTs.
pub mod Units
pub mod Polling
mod Tests
use kalam_network.Prelude.{
  ℕ, zero, suc, ◌+◌, Text, Bool, true, false, Option, none, some, List, [], ◌∷◌, ◌++◌,
  if◌then◌else◌, is_truthy, not,
}
use kalam_network.Exec.{Result, ok, err, Exec, pure, throw, throw_if, ◌>>=◌, ◌>>◌}
use Units.{Currency, to_smallest_units}

pub data CustodyError : Type 0 where
  not_configured unsupported_token api_error network_error invalid_response : CustodyError
  transaction_creation signing unexpected : CustodyError

-- `assetType`, `assetSymbol` and `assetId` of a transaction body.
pub data AssetPayload : Type 0 where
  native : AssetPayload
  hts : Currency → Text → AssetPayload

pub record CreateBody : Type 0 where
  pub source_vault_id : Text
  pub asset : AssetPayload
  pub amount : ℕ
  pub destination_address : Text

-- `status` of a custody transaction; a status that is not in TERMINAL_STATUSES is `pending`.
pub data TxStatus : Type 0 where
  completed failed rejected cancelled expired : TxStatus
  pending : Text → TxStatus

pub record PollData : Type 0 where
  pub status : TxStatus
  pub tx_hash : Option Text
  pub explorer_url : Option Text

pub record Transferred : Type 0 where
  pub tx_hash : Text
  pub status : TxStatus
  pub explorer_url : Option Text

-- The configuration, and the custody API: `create` answers with `data.id`.
pub record CustodyApi : Type 0 where
  pub configured : Bool
  pub token_address : Text
  pub create : ℕ → CreateBody → Result CustodyError (Option Text)
  pub poll : ℕ → Text → Result CustodyError PollData

pub record CustodyState : Type 0 where
  pub posted : List CreateBody
  pub requests : ℕ

abbrev pub Custody : Type 0 → Type 0
Custody A = Exec CustodyState CustodyError A

-- MAX_POLL_ATTEMPTS
abbrev pub max_poll_attempts : ℕ
max_poll_attempts = 30

-- TERMINAL_STATUSES.has
pub is_terminal : TxStatus → Bool
is_terminal (pending t) = false
is_terminal s = true

-- `TOKEN_ADDRESSES[currency]`: TMUSD alone has an address.
unfoldable pub token_address_of : Text → Currency → Option Text
token_address_of address Currency.tmusd = some address
token_address_of address c = none

unfoldable pub build_asset_payload : CustodyApi → Currency → Result CustodyError AssetPayload
unfolding token_address_of
build_asset_payload api Currency.hbar = ok native
build_asset_payload api c = elim (token_address_of api.token_address c) [
  | none ↦ err unsupported_token
  | some address ↦ if is_truthy address then ok (hts c address) else err unsupported_token
]

-- The `catch` around the creation: the service's own exceptions pass, others are wrapped.
unfoldable pub creation_error : CustodyError → CustodyError
creation_error api_error = api_error
creation_error network_error = network_error
creation_error invalid_response = invalid_response
creation_error e = transaction_creation

-- `data?.id`, which is missing if it is the empty text too.
unfoldable pub require_id : Option Text → Result CustodyError Text
require_id none = err invalid_response
require_id (some t) = if is_truthy t then ok t else err invalid_response

abbrev pub lift : {A : Type 0} → Result CustodyError A → Custody A
lift r s = (r, s)

unfoldable pub create_answer : Result CustodyError (Option Text) → Result CustodyError Text
unfolding creation_error require_id
create_answer (ok found) = require_id found
create_answer (err e) = err (creation_error e)

unfoldable pub create_transaction : CustodyApi → CreateBody → Custody Text
create_transaction api body s = (
  create_answer (api.create s.requests body),
  record s { posted = s.posted ++ body ∷ []; requests = s.requests + 1 },
)

-- One answer of the poll: `none` means that the loop goes on.
unfoldable pub poll_answer : PollData → Option (Result CustodyError Transferred)
poll_answer d = elim d.status [
  | completed ↦ elim d.tx_hash [
    | none ↦ some (err invalid_response)
    | some t ↦
        if is_truthy t
        then some (ok (record { tx_hash = t; status = completed; explorer_url = d.explorer_url }))
        else some (err invalid_response)
  ]
  | pending t ↦ none
  | _ ↦ some (err signing)
]

-- What the loop does with the reply to one request: it ends with a result, or goes on.
unfoldable pub poll_step : Result CustodyError PollData → Option (Result CustodyError Transferred)
unfolding poll_answer
poll_step (err e) = some (err e)
poll_step (ok d) = poll_answer d

-- `pollTransactionStatus`, on the number of attempts that are left.
unfoldable pub poll_loop : CustodyApi → Text → ℕ → Custody Transferred
poll_loop api tx_id zero s = (err signing, s)
poll_loop api tx_id (suc attempts) s = elim (poll_step (api.poll s.requests tx_id)) [
  | none ↦ poll_loop api tx_id attempts (record s { requests = s.requests + 1 })
  | some r ↦ (r, record s { requests = s.requests + 1 })
]

unfoldable pub poll_transaction_status : CustodyApi → Text → Custody Transferred
poll_transaction_status api tx_id = poll_loop api tx_id max_poll_attempts

unfoldable pub transfer_body : Text → Text → ℕ → Currency → AssetPayload → CreateBody
transfer_body vault_id to amount currency asset = record {
  source_vault_id = vault_id;
  asset = asset;
  amount = to_smallest_units amount currency;
  destination_address = to;
}

unfoldable pub create_and_poll : CustodyApi → CreateBody → Custody Transferred
create_and_poll api body = do tx_id ← create_transaction api body; poll_transaction_status api tx_id

-- The amount is in hundred-millionths of a token.
unfoldable pub execute_transfer : CustodyApi → Text → Text → ℕ → Currency → Custody Transferred
execute_transfer api vault_id to amount currency = do
  throw_if (not api.configured) not_configured
  asset ← lift (build_asset_payload api currency)
  create_and_poll api (transfer_body vault_id to amount currency asset)
