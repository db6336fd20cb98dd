-- ===== src/Identity/DidNft.antt =====
-- packages/api/src/modules/identity/services/did-nft.service.ts: the minting of a DID NFT. What the
-- metadata says is left out; its reference is a CID of IPFS or a digest.
use kalam_network.Prelude.{
  ℕ, ◌+◌, Text, is_truthy, not, none, some, [], ◌∷◌, ◌++◌, ◌==◌, if◌then◌else◌,
}
use kalam_network.Exec.{ok, err, pure, throw_if, modify, ◌>>=◌, ◌>>◌}
use kalam_network.Repo.{update_where}
use kalam_network.Identity.{
  Nft, serial_told, serial_lost, mint_refused, did_nft_mint, IdentityState, IdentityEnv, Identity,
}

pub record Minted : Type 0 where
  pub minted_serial : ℕ
  pub minted_cid : Text

unfoldable pub add_nft : ℕ → Text → IdentityState → IdentityState
add_nft n cid s = record s {
  nfts = s.nfts ++ record { serial = n; metadata_cid = cid; holder = none } ∷ [];
}

unfoldable pub update_nft : ℕ → (Nft → Nft) → IdentityState → IdentityState
update_nft n f s = record s { nfts = update_where (λ x. Nft.serial x == n) f s.nfts }

-- The reference of the metadata: a failure of IPFS falls back to a digest.
unfoldable pub metadata_reference : IdentityEnv → Identity Text
metadata_reference env s =
    let s' = record s { readings = s.readings + 1 } in
    elim (env.upload_json s.readings) [
      | some cid ↦ (ok cid, s')
      | none ↦
          (ok (env.metadata_digest (s.readings + 1)), record s { readings = s.readings + 1 + 1 })
    ]

-- The transfer to the user: a failure leaves the NFT in the treasury.
unfoldable pub deliver_nft : IdentityEnv → ℕ → Text → IdentityState → IdentityState
deliver_nft env n account s =
    let s' = record s { readings = s.readings + 1 } in
    if is_truthy account
    then (if env.transfer_nft s.readings
        then update_nft n (λ x. record x { holder = some account }) s'
        else s')
    else s

-- The minting itself: with a lost serial the NFT is there, and the call throws all the same.
unfoldable pub mint_token : IdentityEnv → Text → Identity ℕ
mint_token env cid s =
    let s' = record s { readings = s.readings + 1 } in
    elim (env.mint_nft s.readings) [
      | serial_told n ↦ (ok n, add_nft n cid s')
      | serial_lost n ↦ (err did_nft_mint, add_nft n cid s')
      | mint_refused ↦ (err did_nft_mint, s')
    ]

-- The freezing of the token on the account, whether or not the NFT has reached it: a failure is only
-- logged.
unfoldable pub freeze_nft : IdentityEnv → Text → IdentityState → IdentityState
freeze_nft env account s =
    let s' = record s { readings = s.readings + 1 } in
    if env.freeze_token s.readings
    then record s' { frozen_accounts = s.frozen_accounts ++ account ∷ [] }
    else s'

-- The second `try` of `mintDidNft`, once the metadata has a reference.
unfoldable pub mint_and_deliver : IdentityEnv → Text → Text → Identity Minted
mint_and_deliver env cid account = do
  n ← mint_token env cid
  modify (deliver_nft env n account)
  modify (freeze_nft env account)
  pure (record { minted_serial = n; minted_cid = cid })

-- `mintDidNft`
unfoldable pub mint_did_nft : IdentityEnv → Text → Identity Minted
mint_did_nft env account = do
  throw_if (not env.did_token_configured) did_nft_mint
  cid ← metadata_reference env
  mint_and_deliver env cid account
