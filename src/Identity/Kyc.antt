-- ===== src/Identity/Kyc.antt =====
-- packages/api/src/modules/identity/services/kyc.service.ts, and the handler of its callbacks in
-- packages/api/src/modules/identity/controllers/kyc-webhook.controller.ts.
use kalam_network.Prelude.{
  ℕ, Text, get_or, is_present, Bool, true, false, not, Option, some, if◌then◌else◌, is_some,
}
use kalam_network.Exec.{Result, ok, err, after, pure, throw_if, modify, gets, or_throw, ◌>>=◌, ◌>>◌}
use kalam_network.Repo.{find_one, column_is}
use kalam_network.Identity.{
  UserStatus, registered, pending_wallet, pending_kyc, kyc_submitted, kyc_rejected, active,
  suspended, AccountType, basic, Person, IdentityError, kyc_invalid_state, kyc_submission,
  kyc_callback_invalid, kyc_record_not_found, IdentityState, IdentityEnv, Identity, update_person,
  person_or_throw, draw, draw_or,
}
use kalam_network.Identity.Onboarding.{complete_onboarding}

pub data KycDecision : Type 0 where
  approved rejected on_hold : KycDecision

-- `["pending_kyc", "kyc_rejected"].includes(user.status)`
abbrev pub can_submit : UserStatus → Bool
can_submit pending_kyc = true
can_submit kyc_rejected = true
can_submit registered = false
can_submit pending_wallet = false
can_submit kyc_submitted = false
can_submit active = false
can_submit suspended = false

abbrev pub is_active_status : UserStatus → Bool
is_active_status active = true
is_active_status pending_kyc = false
is_active_status kyc_rejected = false
is_active_status registered = false
is_active_status pending_wallet = false
is_active_status kyc_submitted = false
is_active_status suspended = false

-- `validateUserForKyc`
unfoldable pub validate_for_kyc : Text → Identity Person
validate_for_kyc k = do
  user ← person_or_throw k
  throw_if (not (can_submit user.status)) kyc_invalid_state
  throw_if (not (is_present user.hedera_account_id)) kyc_invalid_state
  pure user

-- The columns that a submission writes: `kycCompletedAt: undefined` leaves that column as it is.
unfoldable pub with_submission : AccountType → Text × ℕ → Person → Person
with_submission t answer p = record p {
  status = kyc_submitted;
  kyc_request_id = some answer.0;
  kyc_submitted_at = some answer.1;
  account_type = t;
}

-- The columns that a submission in the demo mode writes.
unfoldable pub demo_submitted : AccountType → Text → ℕ → Person → Person
demo_submitted t r at p = record p {
  kyc_request_id = some r;
  kyc_submitted_at = some at;
  account_type = t;
}

-- The columns that a decision writes.
unfoldable pub decided : KycDecision → ℕ → Person → Person
decided approved at p = record p {
  kyc_completed_at = some at;
  status = active;
  kyc_level = some basic;
}
decided rejected at p = record p { kyc_completed_at = some at; status = kyc_rejected }
decided on_hold at p = record p { kyc_completed_at = some at }

module _ (env : IdentityEnv) where
  -- `submitToMirsadAndUpdateUser`
  unfoldable pub submit_to_mirsad : Text → AccountType → Identity Text
  submit_to_mirsad k t = do
    answer ← draw_or env.submit_onboarding kyc_submission
    modify (update_person k (with_submission t answer))
    pure answer.0

  -- `autoApproveForDemo`. Its comment says that it is blocked in production, but the code has no
  -- check of the environment: it runs wherever the KYC provider is not configured.
  unfoldable pub auto_approve : Text → AccountType → Identity Text
  auto_approve k t = do
    at ← draw env.clock
    modify (update_person k (demo_submitted t (env.demo_request_id k) at))
    complete_onboarding env k
    pure (env.demo_request_id k)

  -- `submitIndividualKyc` and `submitCorporateKyc`, which differ in the data that they pass on.
  unfoldable pub submit_kyc : Text → AccountType → Text → Identity Text
  submit_kyc k t name = do
    user ← validate_for_kyc k
    modify (update_person k (λ p. record p { display_name = some name }))
    if env.kyc_configured then submit_to_mirsad k t else auto_approve k t

  -- `handleKycCallback` for a user that has no decision yet.
  unfoldable pub decide_request : Text → KycDecision → Identity Person
  decide_request k d = do
    at ← draw env.clock
    modify (update_person k (decided d at))
    person_or_throw k

  -- `handleKycCallback`
  unfoldable pub handle_kyc_callback : Text → KycDecision → Identity Person
  handle_kyc_callback r d = do
    found ← gets (λ s. find_one (λ p. column_is p.kyc_request_id r) s.persons)
    user ← or_throw found kyc_callback_invalid
    if is_some user.kyc_completed_at then pure user else decide_request user.id d

  -- The onboarding that the handler of the callbacks starts after an approval.
  unfoldable pub onboard_approved :
      KycDecision → Result IdentityError Person → IdentityState → IdentityState
  onboard_approved approved (ok user) s =
      if is_active_status user.status then s else after (complete_onboarding env user.id) s
  onboard_approved rejected (ok user) s = s
  onboard_approved on_hold (ok user) s = s
  onboard_approved d (err e) s = s

  -- `handleMirsadKycCallback`, which answers the same in every case.
  unfoldable pub handle_webhook : Text → KycDecision → IdentityState → IdentityState
  handle_webhook r d s =
      let (answer, s') = handle_kyc_callback r d s in onboard_approved d answer s'

pub record KycStatus : Type 0 where
  pub status : UserStatus
  pub request_id : Text
  pub submitted_at : Option ℕ
  pub completed_at : Option ℕ
  pub can_resubmit : Bool

-- `getKycStatus`
unfoldable pub get_kyc_status : Text → Identity KycStatus
get_kyc_status k = do
  user ← person_or_throw k
  throw_if (not (is_present user.kyc_request_id)) kyc_record_not_found
  pure (record {
    status = user.status;
    request_id = get_or user.kyc_request_id 0;
    submitted_at = user.kyc_submitted_at;
    completed_at = user.kyc_completed_at;
    can_resubmit = can_submit user.status;
  })
