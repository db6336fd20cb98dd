-- ===== src/Payments/Split.antt =====
-- `createSplitPayment` of packages/api/src/modules/payments/payments.service.ts. `Math.round` of the
-- quotient of two amounts is exact here.
pub mod Shares
use kalam_network.Prelude.{
  ℕ, ◌*◌, Text, Bool, Option, none, some, List, [], ◌∷◌, ◌==◌, if◌then◌else◌, length,
}
use kalam_network.Exec.{Result, ok, err, pure, ◌>>=◌, ◌>>◌}
use kalam_network.Custody.Units.{Currency, cent, round_div}
use kalam_network.Payments.Types.{
  PaymentRequest, split_created, SplitMethod, equal, custom, PaymentError, invalid_amount,
  JwtPayload, Env, Payments,
}
use kalam_network.Payments.Steps.{
  validate_currency, validate_amount, submit_if_topic, verify_if_topic,
}
use kalam_network.Payments.Requests.{create_payment_request}

pub record SplitDto : Type 0 where
  pub total_amount : ℕ
  pub currency : Currency
  pub split_method : SplitMethod
  pub participant_account_ids : List Text
  pub topic_id : Option Text
  pub note : Option Text
  pub custom_amounts : Option (List (Text × ℕ))

pub record SplitResult : Type 0 where
  pub request_ids : List Text
  pub participant_count : ℕ
  pub hcs_sequence_number : Option ℕ

-- Math.round((totalAmount / participantCount) * 100) / 100, which is a whole number of cents.
unfoldable pub per_person : ℕ → ℕ → ℕ
per_person total participants = round_div total (participants * cent) * cent

-- `customAmounts[accountId]`
unfoldable pub amount_for : Text → List (Text × ℕ) → Option ℕ
amount_for account [] = none
amount_for account ((a, n) ∷ rest) = if a == account then some n else amount_for account rest

-- An amount that is missing, or not above zero, is refused.
positive : Option ℕ → Result PaymentError ℕ
positive none = err invalid_amount
positive (some n) = if n == 0 then err invalid_amount else ok n

add_share :
    Text
    → Result PaymentError ℕ
    → Result PaymentError (List (Text × ℕ))
    → Result PaymentError (List (Text × ℕ))
add_share account (ok n) (ok rest) = ok ((account, n) ∷ rest)
add_share account (err e) rest = err e
add_share account (ok n) (err e) = err e

-- The shares of a custom split, in the order of the participants, or the first refusal.
unfoldable pub custom_shares : List (Text × ℕ) → List Text → Result PaymentError (List (Text × ℕ))
unfolding positive add_share
custom_shares amounts [] = ok []
custom_shares amounts (account ∷ rest) =
    add_share account (positive (amount_for account amounts)) (custom_shares amounts rest)

unfoldable pub equal_shares : ℕ → List Text → List (Text × ℕ)
equal_shares share [] = []
equal_shares share (account ∷ rest) = (account, share) ∷ equal_shares share rest

unfoldable pub shares_of : SplitDto → Result PaymentError (List (Text × ℕ))
shares_of dto = elim dto.split_method [
  | equal ↦ ok (
      equal_shares (per_person dto.total_amount (length dto.participant_account_ids))
        dto.participant_account_ids)
  | custom ↦ elim dto.custom_amounts [
    | none ↦ err invalid_amount
    | some amounts ↦ custom_shares amounts dto.participant_account_ids
  ]
]

-- The loop that creates one request for each participant; the first failure ends it.
unfoldable pub create_requests :
    Env → JwtPayload → Option Text → Currency → Option Text → List (Text × ℕ) → Payments (List Text)
create_requests env user topic currency description [] = pure []
create_requests env user topic currency description ((account, n) ∷ rest) = do
  request ← create_payment_request env user topic n currency description none
  ids ← create_requests env user topic currency description rest
  pure (request.id ∷ ids)

-- `createSplitPayment`
unfoldable pub create_split_payment : Env → JwtPayload → SplitDto → Payments SplitResult
create_split_payment env user dto = do
  validate_currency dto.currency
  validate_amount dto.total_amount
  verify_if_topic user.hedera_account_id dto.topic_id
  shares ← (λ s. (shares_of dto, s))
  request_ids ← create_requests env user dto.topic_id dto.currency dto.note shares
  seq ← submit_if_topic env dto.topic_id (
      split_created user.hedera_account_id dto.total_amount dto.currency dto.split_method
        (length dto.participant_account_ids) request_ids dto.note)
  pure (record {
    request_ids = request_ids;
    participant_count = length dto.participant_account_ids;
    hcs_sequence_number = seq;
  })
