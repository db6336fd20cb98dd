-- ===== src/Identity.antt =====
-- packages/api/src/modules/identity: wallets, KYC and onboarding. This file has the state, the
-- environment and the private helpers that the services share.
pub mod Wallet
pub mod DidNft
pub mod Onboarding
pub mod Kyc
pub mod Acts
pub mod Failures
pub mod Moves
mod Tests
use kalam_network.Prelude.{
  ℕ, ◌+◌, Text, is_present, Bool, true, false, Option, none, some, List, ◌==◌, ◌++◌, [], ◌∷◌,
  if◌then◌else◌, ◌≡◌, ◌⊎◌, inl, inr, refl,
}
use kalam_network.Exec.{
  Result, ok, err, Exec, pure, throw, gets, or_throw, throw_if, modify, ◌>>=◌, ◌>>◌,
}
use kalam_network.Repo.{find_one, find_key, update_where}

pub data UserStatus : Type 0 where
  registered pending_wallet pending_kyc kyc_submitted kyc_rejected active suspended : UserStatus

pub data AccountType : Type 0 where
  individual business : AccountType

pub data KycLevel : Type 0 where
  basic : KycLevel

-- The columns of `UserEntity` that these services read or write.
pub record Person : Type 0 where
  pub id : Text
  pub display_name : Option Text
  pub hedera_account_id : Option Text
  pub public_key : Option Text
  pub key_id : Option Text
  pub status : UserStatus
  pub encryption_public_key : Option Text
  pub key_backup : Option Text
  pub public_feed_topic : Option Text
  pub notification_topic : Option Text
  pub account_type : AccountType
  pub did_nft_serial : Option ℕ
  pub did_nft_metadata_cid : Option Text
  pub kyc_level : Option KycLevel
  pub kyc_request_id : Option Text
  pub kyc_submitted_at : Option ℕ
  pub kyc_completed_at : Option ℕ

-- What `createUserVault` answers.
pub record Vault : Type 0 where
  pub vault_id : Text
  pub vault_key : Text
  pub vault_account : Option Text

-- A DID NFT on the ledger, and its holder, if it has left the treasury.
pub record Nft : Type 0 where
  pub serial : ℕ
  pub metadata_cid : Text
  pub holder : Option Text

-- How a call of `mintDIDNft` ends: with the serial of the NFT; with an exception after the NFT was
-- minted, since the receipt is lost or names no serial; or with an exception and no NFT.
pub data MintAnswer : Type 0 where
  serial_told serial_lost : ℕ → MintAnswer
  mint_refused : MintAnswer

pub data IdentityError : Type 0 where
  user_not_found wallet_already_exists custody_not_configured custody_api : IdentityError
  topic_creation did_nft_mint no_hedera_account did_nft_mint_failed : IdentityError
  kyc_invalid_state kyc_submission kyc_callback_invalid kyc_record_not_found : IdentityError

-- `frozen_accounts` are the accounts on which the token of the DID NFTs was frozen.
pub record IdentityState : Type 0 where
  pub persons : List Person
  pub nfts : List Nft
  pub frozen_accounts : List Text
  pub attested : List (Text × ℕ)
  pub grants : List Text
  pub readings : ℕ

-- The configuration, and what the environment answers, by the number of readings made before.
pub record IdentityEnv : Type 0 where
  pub custody_configured : Bool
  pub kyc_configured : Bool
  pub did_token_configured : Bool
  pub attestation_topic : Option Text
  pub tmusd_token : Option Text
  pub clock : ℕ → ℕ
  pub create_vault : ℕ → Option Vault
  pub create_account : ℕ → Option Text
  pub fund_account : ℕ → Bool
  pub create_topic : ℕ → Option Text
  pub box_public_key : ℕ → Text
  pub box_secret_key : ℕ → Text
  pub transfer_tmusd : ℕ → Bool
  pub upload_json : ℕ → Option Text
  pub metadata_digest : ℕ → Text
  pub mint_nft : ℕ → MintAnswer
  pub transfer_nft : ℕ → Bool
  pub freeze_token : ℕ → Bool
  pub submit_message : ℕ → Bool
  pub submit_onboarding : ℕ → Option (Text × ℕ)
  pub demo_request_id : Text → Text

abbrev pub Identity : Type 0 → Type 0
Identity A = Exec IdentityState IdentityError A

-- One reading of the environment.
abbrev pub draw : {A : Type 0} → (ℕ → A) → Identity A
draw f s = (ok (f s.readings), record s { readings = s.readings + 1 })

-- A call of the environment that may fail.
abbrev pub draw_or : {A : Type 0} → (ℕ → Option A) → IdentityError → Identity A
draw_or f e = draw f >>= λ found. or_throw found e

-- `update(id, partial)`
unfoldable pub update_person : Text → (Person → Person) → IdentityState → IdentityState
update_person k f s = record s { persons = update_where (λ p. Person.id p == k) f s.persons }

-- `findOne({ where: { id } })`
unfoldable pub find_person : Text → IdentityState → Option Person
find_person k s = find_key Person.id k s.persons

unfoldable pub person_or_throw : Text → Identity Person
person_or_throw k = do found ← gets (find_person k); or_throw found user_not_found

pub record Topics : Type 0 where
  pub feed : Text
  pub inbox : Text

-- `createUserTopics` of both services.
unfoldable pub create_user_topics : IdentityEnv → Identity Topics
create_user_topics env = do
  feed ← draw_or env.create_topic topic_creation
  inbox ← draw_or env.create_topic topic_creation
  pure (record { feed = feed; inbox = inbox })
