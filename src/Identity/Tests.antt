-- ===== src/Identity/Tests.antt =====
-- Identities on concrete inputs.
use kalam_network.Prelude.{
  ◌+◌, ◌≡◌, ◌==◌, if◌then◌else◌, Bool, refl, true, false, none, some, [], ◌∷◌, arith,
}
use kalam_network.Exec.{err, after, result}
use kalam_network.Repo.{find_one, count, update_where}
use kalam_network.Identity.{
  serial_told, pending_kyc, kyc_submitted, kyc_rejected, active, individual, topic_creation, basic,
  Person, IdentityState, IdentityEnv, find_person, update_person, person_or_throw,
  create_user_topics,
}
use kalam_network.Identity.DidNft.{
  add_nft, update_nft, metadata_reference, deliver_nft, mint_token, mint_and_deliver, freeze_nft,
  mint_did_nft,
}
use kalam_network.Identity.Onboarding.{
  mint_for, topics_of, submit_attestation, onboarded, complete_onboarding,
}
use kalam_network.Identity.Kyc.{
  approved, rejected, validate_for_kyc, with_submission, demo_submitted, decided, submit_to_mirsad,
  auto_approve, submit_kyc, decide_request, handle_kyc_callback, onboard_approved, handle_webhook,
  get_kyc_status,
}
use kalam_network.Identity.Failures.{Wastes, complete_onboarding_fails}
use kalam_network.Identity.Moves.{
  submit_call, webhook_call, Relates, HasUniqueIds, standing, step, run,
}
use kalam_network.Identity.Moves.Lifecycle.{
  IsBacked, IsSoundTable, MayActivate, step-Relates, run-IsSoundTable, becomes_active,
}
use kalam_network.Identity.Moves.Decided.{HasStatus, first_submission_decided, resubmission_kept}

abbrev env : IdentityEnv
env = record {
  custody_configured = true;
  kyc_configured = true;
  did_token_configured = true;
  attestation_topic = some 40;
  tmusd_token = some 41;
  clock = λ n. 1000 + n;
  create_vault =
      λ n. some (record { vault_id = 300 + n; vault_key = 301 + n; vault_account = none });
  create_account = λ n. some (400 + n);
  fund_account = λ n. true;
  create_topic = λ n. none;
  box_public_key = λ n. 600 + n;
  box_secret_key = λ n. 700 + n;
  transfer_tmusd = λ n. true;
  upload_json = λ n. none;
  metadata_digest = λ n. 800 + n;
  mint_nft = λ n. serial_told (10 + n);
  transfer_nft = λ n. true;
  freeze_token = λ n. true;
  submit_message = λ n. true;
  submit_onboarding = λ n. some (900, 5);
  demo_request_id = λ k. 2000 + k;
}

-- A user with a wallet, whom KYC has not looked at.
abbrev new_user : Person
new_user = record {
  id = 1;
  display_name = none;
  hedera_account_id = some 50;
  public_key = some 51;
  key_id = some 52;
  status = pending_kyc;
  encryption_public_key = some 53;
  key_backup = none;
  public_feed_topic = none;
  notification_topic = none;
  account_type = individual;
  did_nft_serial = none;
  did_nft_metadata_cid = none;
  kyc_level = none;
  kyc_request_id = none;
  kyc_submitted_at = none;
  kyc_completed_at = none;
}

-- A user whom KYC has rejected.
abbrev rejected_user : Person
rejected_user = record new_user {
  status = kyc_rejected;
  kyc_request_id = some 60;
  kyc_submitted_at = some 3;
  kyc_completed_at = some 4;
}

abbrev with_user : Person → IdentityState
with_user p = record {
  persons = p ∷ [];
  nfts = [];
  frozen_accounts = [];
  attested = [];
  grants = [];
  readings = 0;
}

one_user-HasUniqueIds : (p : Person) → HasUniqueIds (with_user p)
unfolding count
one_user-HasUniqueIds p k = ground arith

new_user-IsSoundTable : IsSoundTable (with_user new_user)
unfolding find_person find_one
new_user-IsSoundTable = (one_user-HasUniqueIds new_user, λ k. backed (1 == k))
  where
    backed : (b : Bool) → IsBacked (if b then some new_user else none)
    backed true = λ e. refl
    backed false = tt

step-Relates_example :
    Relates env 1
      (submit_call 1 individual 70)
      (find_person 1 (with_user new_user))
      (find_person 1 (step env (submit_call 1 individual 70) (with_user new_user)))
step-Relates_example =
    step-Relates env (submit_call 1 individual 70) (with_user new_user) 1
      (one_user-HasUniqueIds new_user)

run-IsSoundTable_example :
    IsSoundTable
      (run env (submit_call 1 individual 70 ∷ webhook_call 900 approved ∷ []) (with_user new_user))
run-IsSoundTable_example =
    run-IsSoundTable env (submit_call 1 individual 70 ∷ webhook_call 900 approved ∷ [])
      (with_user new_user) new_user-IsSoundTable

first_submission_decided_example : HasStatus active (
    find_person 1 (
      handle_webhook env 900 approved
        (after (submit_kyc env 1 individual 70) (with_user new_user))))
unfolding find_person find_one
first_submission_decided_example =
    first_submission_decided env 1 individual 70 (with_user new_user) new_user approved (900, 5)
      refl refl refl refl refl refl refl

resubmission_kept_example :
    (HasStatus kyc_submitted
      (find_person 1 (after (submit_kyc env 1 individual 70) (with_user rejected_user))))
    × (handle_webhook env 900 rejected
          (after (submit_kyc env 1 individual 70) (with_user rejected_user))
        ≡ after (submit_kyc env 1 individual 70) (with_user rejected_user))
unfolding find_person find_one
resubmission_kept_example =
    resubmission_kept env 1 individual 70 (with_user rejected_user) rejected_user rejected (900, 5)
      refl refl refl refl refl refl refl (λ e. ground (arith, e))

-- A user whose submission is not decided.
abbrev waiting_user : Person
waiting_user = record new_user { status = kyc_submitted; kyc_request_id = some 900 }

abbrev approved_user : Person
approved_user = record waiting_user {
  status = active;
  kyc_level = some basic;
  kyc_completed_at = some 1000;
}

waiting_here : find_person 1 (with_user waiting_user) ≡ some waiting_user
unfolding find_person find_one
waiting_here = refl

approval_seen :
    find_person 1 (step env (webhook_call 900 approved) (with_user waiting_user))
    ≡ some approved_user
unfolding step validate_for_kyc with_submission demo_submitted decided submit_to_mirsad auto_approve
    submit_kyc decide_request handle_kyc_callback onboard_approved handle_webhook get_kyc_status
    update_person find_person person_or_throw create_user_topics add_nft update_nft
    metadata_reference deliver_nft mint_token mint_and_deliver freeze_nft mint_did_nft mint_for
    topics_of submit_attestation onboarded complete_onboarding find_one update_where
approval_seen = refl

becomes_active_example : MayActivate env 1 (standing waiting_user) (webhook_call 900 approved)
becomes_active_example =
    becomes_active env (webhook_call 900 approved) (with_user waiting_user) 1 waiting_user
      approved_user (one_user-HasUniqueIds waiting_user) waiting_here refl approval_seen refl

topics_fail : result (complete_onboarding env 1) (with_user new_user) ≡ err topic_creation
unfolding update_person find_person person_or_throw create_user_topics add_nft update_nft
    metadata_reference deliver_nft mint_token mint_and_deliver freeze_nft mint_did_nft mint_for
    topics_of submit_attestation onboarded complete_onboarding find_one update_where
topics_fail = refl

complete_onboarding_fails_example :
    ((after (complete_onboarding env 1) (with_user new_user)).persons ≡ new_user ∷ [])
    × Wastes env topic_creation
        (with_user new_user)
        (after (complete_onboarding env 1) (with_user new_user))
complete_onboarding_fails_example =
    complete_onboarding_fails env 1 (with_user new_user) topic_creation topics_fail

-- The NFT that was minted before stays.
minted_before :
    (after (complete_onboarding env 1) (with_user new_user)).nfts
    ≡ record { serial = 12; metadata_cid = 801; holder = some 50 } ∷ []
unfolding update_person find_person person_or_throw create_user_topics add_nft update_nft
    metadata_reference deliver_nft mint_token mint_and_deliver freeze_nft mint_did_nft mint_for
    topics_of submit_attestation onboarded complete_onboarding find_one update_where
minted_before = refl
