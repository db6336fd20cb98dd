-- ===== src/Identity/Onboarding.antt =====
-- packages/api/src/modules/identity/services/onboarding.service.ts
use kalam_network.Prelude.{
  ℕ, ◌+◌, Text, is_present, get_or, ◌&&◌, not, some, [], ◌∷◌, ◌++◌, if◌then◌else◌,
}
use kalam_network.Exec.{Result, ok, err, pure, throw_if, modify, ◌>>=◌, ◌>>◌}
use kalam_network.Identity.{
  active, basic, Person, IdentityError, no_hedera_account, did_nft_mint_failed, IdentityState,
  IdentityEnv, Identity, Topics, create_user_topics, update_person, person_or_throw,
}
use kalam_network.Identity.DidNft.{Minted, mint_did_nft}

-- Any failure of the minting is reported as one of the onboarding.
abbrev pub onboarding_failure : {A : Type 0} → Result IdentityError A → Result IdentityError A
onboarding_failure (ok a) = ok a
onboarding_failure (err e) = err did_nft_mint_failed

unfoldable pub mint_for : IdentityEnv → Person → Identity Minted
mint_for env user s =
    let (r, s') = mint_did_nft env (get_or user.hedera_account_id 0) s in (onboarding_failure r, s')

-- The topics of the user, made only if one is missing.
unfoldable pub topics_of : IdentityEnv → Person → Identity Topics
topics_of env user =
    if is_present user.public_feed_topic && is_present user.notification_topic
    then pure (record {
      feed = get_or user.public_feed_topic 0;
      inbox = get_or user.notification_topic 0;
    })
    else create_user_topics env

-- `submitKycAttestation`: a failure is only logged.
unfoldable pub submit_attestation : IdentityEnv → Person → ℕ → IdentityState → IdentityState
submit_attestation env user n s =
    let s' = record s { readings = s.readings + 1 } in
    if is_present env.attestation_topic
    then (if env.submit_message s.readings
        then record s' { attested = s.attested ++ (user.id, n) ∷ [] }
        else s')
    else s

-- The columns that an onboarding writes.
unfoldable pub onboarded : Minted → Topics → Person → Person
onboarded minted topics p = record p {
  status = active;
  did_nft_serial = some minted.minted_serial;
  did_nft_metadata_cid = some minted.minted_cid;
  public_feed_topic = some topics.feed;
  notification_topic = some topics.inbox;
  kyc_level = some basic;
}

-- `completeOnboarding`
unfoldable pub complete_onboarding : IdentityEnv → Text → Identity Unit
complete_onboarding env k = do
  user ← person_or_throw k
  throw_if (not (is_present user.hedera_account_id)) no_hedera_account
  minted ← mint_for env user
  topics ← topics_of env user
  modify (submit_attestation env user minted.minted_serial)
  modify (update_person k (onboarded minted topics))
