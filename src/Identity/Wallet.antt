-- ===== src/Identity/Wallet.antt =====
-- packages/api/src/modules/identity/services/wallet.service.ts
use kalam_network.Prelude.{
  ◌+◌, Text, is_present, get_or, Bool, true, false, ◌&&◌, not, Option, none, some, [], ◌∷◌, ◌++◌,
  if◌then◌else◌, is_some,
}
use kalam_network.Exec.{Result, ok, err, pure, throw_if, modify, ◌>>=◌, ◌>>◌}
use kalam_network.Identity.{
  UserStatus, pending_kyc, Person, Vault, IdentityError, wallet_already_exists,
  custody_not_configured, custody_api, IdentityState, IdentityEnv, Identity, Topics,
  create_user_topics, update_person, person_or_throw, draw, draw_or,
}

pub record WalletCreated : Type 0 where
  pub account : Text
  pub public_key : Text
  pub encryption_key : Text

-- A funding that fails throws.
unfoldable pub fund : IdentityEnv → Identity Unit
fund env = do funded ← draw env.fund_account; throw_if (not funded) custody_api

-- The account of the vault, funded, or a new one.
unfoldable pub provide_account : IdentityEnv → Vault → Identity Text
provide_account env vault =
    if is_present vault.vault_account
    then fund env >> pure (get_or vault.vault_account 0)
    else draw_or env.create_account custody_api

-- `fundWithTmusd`: a failure is only logged.
unfoldable pub fund_with_tmusd : IdentityEnv → Text → IdentityState → IdentityState
fund_with_tmusd env account s =
    let s' = record s { readings = s.readings + 1 } in
    if is_present env.tmusd_token
    then (if env.transfer_tmusd s.readings
        then record s' { grants = s.grants ++ account ∷ [] }
        else s')
    else s

-- The columns that the creation of a wallet writes.
unfoldable pub with_wallet : Text → Vault → Topics → Text → Person → Person
with_wallet account vault topics key p = record p {
  hedera_account_id = some account;
  public_key = some vault.vault_key;
  key_id = some vault.vault_id;
  public_feed_topic = some topics.feed;
  notification_topic = some topics.inbox;
  encryption_public_key = some key;
  status = pending_kyc;
}

-- The end of `createWalletViaTamam`, from the topics on.
unfoldable pub store_wallet : IdentityEnv → Text → Vault → Text → Topics → Identity WalletCreated
store_wallet env k vault account topics = do
  key ← draw env.box_public_key
  modify (update_person k (with_wallet account vault topics key))
  modify (fund_with_tmusd env account)
  pure (record { account = account; public_key = vault.vault_key; encryption_key = key })

-- `createWalletViaTamam`
unfoldable pub create_via_tamam : IdentityEnv → Text → Identity WalletCreated
create_via_tamam env k = do
  vault ← draw_or env.create_vault custody_api
  account ← provide_account env vault
  topics ← create_user_topics env
  store_wallet env k vault account topics

-- Every error of the creation is reported as one of the custody.
abbrev pub custody_failure : {A : Type 0} → Result IdentityError A → Result IdentityError A
custody_failure (ok a) = ok a
custody_failure (err e) = err custody_api

unfoldable pub via_custody : IdentityEnv → Text → Identity WalletCreated
via_custody env k s = let (r, s') = create_via_tamam env k s in (custody_failure r, s')

-- `createWallet`
unfoldable pub create_wallet : IdentityEnv → Text → Identity WalletCreated
create_wallet env k = do
  user ← person_or_throw k
  throw_if (is_present user.hedera_account_id) wallet_already_exists
  throw_if (not env.custody_configured) custody_not_configured
  via_custody env k

pub record EncryptionKey : Type 0 where
  pub key : Text
  pub secret : Option Text
  pub backup : Option Text
  pub generated : Bool

unfoldable pub generate_key : IdentityEnv → Text → Identity EncryptionKey
generate_key env k s =
    let key = env.box_public_key s.readings in
    (
      ok (record {
        key = key;
        secret = some (env.box_secret_key s.readings);
        backup = none;
        generated = true;
      }),
      update_person k (λ p. record p { encryption_public_key = some key; key_backup = none })
          (record s { readings = s.readings + 1 }),
    )

-- `ensureEncryptionKey`
unfoldable pub ensure_encryption_key : IdentityEnv → Text → Bool → Identity EncryptionKey
ensure_encryption_key env k force = do
  user ← person_or_throw k
  if is_present user.encryption_public_key && not force
      then pure (record {
        key = get_or user.encryption_public_key 0;
        secret = none;
        backup = user.key_backup;
        generated = false;
      })
      else generate_key env k

-- `storeKeyBackup`
unfoldable pub store_key_backup : Text → Text → Identity Unit
store_key_backup k blob = do
  user ← person_or_throw k
  modify (update_person k (λ p. record p { key_backup = some blob }))

-- `getKeyBackup`
unfoldable pub get_key_backup : Text → Identity (Option Text)
get_key_backup k = do user ← person_or_throw k; pure user.key_backup

pub record WalletStatus : Type 0 where
  pub status : UserStatus
  pub has_wallet : Bool
  pub has_encryption_key : Bool
  pub has_backup : Bool

-- `getWalletStatus`
unfoldable pub get_wallet_status : Text → Identity WalletStatus
get_wallet_status k = do
  user ← person_or_throw k
  pure (record {
    status = user.status;
    has_wallet = is_some user.hedera_account_id;
    has_encryption_key = is_some user.encryption_public_key;
    has_backup = is_some user.key_backup;
  })
