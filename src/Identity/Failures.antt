-- ===== src/Identity/Failures.antt =====
-- What an onboarding that throws leaves behind.
use kalam_network.Prelude.{
  ℕ, suc, ◌+◌, ◌≡◌, ◌⊎◌, refl, sym, Text, is_present, get_or, Bool, ◌&&◌, none, some, List, [], ◌∷◌,
  ◌==◌, length, length-append, arith, inl, inr, Bool-cases, Option-cases,
}
use mathlib.Core.Path.{subst}
use kalam_network.Exec.{Result, ok, err, after, result, Result-cases}
use kalam_network.Repo.{update_where}
use kalam_network.Identity.{
  MintAnswer, serial_told, mint_refused, serial_lost, did_nft_mint, Nft, Person, IdentityError,
  did_nft_mint_failed, topic_creation, IdentityState, IdentityEnv, Topics, find_person,
  person_or_throw, create_user_topics,
}
use kalam_network.Identity.DidNft.{
  Minted, mint_did_nft, metadata_reference, mint_token, mint_and_deliver, add_nft, deliver_nft,
  freeze_nft, update_nft,
}
use kalam_network.Identity.Onboarding.{mint_for, onboarding_failure, topics_of, complete_onboarding}
use kalam_network.Identity.Acts.Onboards.{mint_for_frame, topics_of_frame}

abbrev pub nft_count : IdentityState → ℕ
nft_count s = length s.nfts

length-update_where :
    {A : Type 0} (p : A → Bool) (f : A → A) (rows : List A)
    → length (update_where p f rows) ≡ length rows
unfolding update_where
length-update_where p f [] = refl
length-update_where p f (r ∷ rows) = ground (arith, length-update_where p f rows)

-- A minting that succeeds adds one NFT. One that fails adds none, or one whose serial was lost.
abbrev pub MayMint : IdentityEnv → IdentityState → IdentityState → Type 0
MayMint env s s' =
    (nft_count s' ≡ nft_count s)
    ⊎ ((m n : ℕ) × (env.mint_nft m ≡ serial_lost n) × (nft_count s' ≡ suc (nft_count s)))

abbrev Mints :
    {A : Type 0} → IdentityEnv → IdentityState → Result IdentityError A × IdentityState → Type 0
Mints env s (ok a, s') = nft_count s' ≡ suc (nft_count s)
Mints env s (err e, s') = MayMint env s s'

module _ (env : IdentityEnv) where
  delivered_count :
      (n : ℕ) (account : Text) (s : IdentityState)
      → nft_count (deliver_nft env n account s) ≡ nft_count s
  unfolding deliver_nft update_nft
  delivered_count n account s = ground (
    arith,
    length-update_where (λ x. Nft.serial x == n) (λ x. record x { holder = some account }) s.nfts,
  )

  frozen_count :
      (account : Text) (s : IdentityState) → nft_count (freeze_nft env account s) ≡ nft_count s
  unfolding freeze_nft
  frozen_count account s = ground arith

  added_count :
      (n : ℕ) (cid : Text) (s : IdentityState) → nft_count (add_nft n cid s) ≡ suc (nft_count s)
  unfolding add_nft
  added_count n cid s =
      ground (
        arith,
        length-append s.nfts (record { serial = n; metadata_cid = cid; holder = none } ∷ []),
      )

  lost :
      (n : ℕ) (cid : Text) (s : IdentityState)
      → env.mint_nft s.readings ≡ serial_lost n
      → mint_token env cid s
        ≡ (err did_nft_mint, add_nft n cid (record s { readings = s.readings + 1 }))
  unfolding mint_token
  lost n cid s e = ground arith

  minting-Mints :
      (a : MintAnswer) (cid : Text) (s : IdentityState)
      → env.mint_nft s.readings ≡ a
      → Mints env s (mint_token env cid s)
  unfolding mint_token
  minting-Mints (serial_told n) cid s e =
      ground (arith, added_count n cid (record s { readings = s.readings + 1 }))
  minting-Mints (serial_lost n) cid s e =
      subst (Mints env s) (sym (lost n cid s e))
        (inr (s.readings, n, e, added_count n cid (record s { readings = s.readings + 1 })))
  minting-Mints mint_refused cid s e = ground arith

  mint_token-Mints : (cid : Text) (s : IdentityState) → Mints env s (mint_token env cid s)
  mint_token-Mints cid s = minting-Mints (env.mint_nft s.readings) cid s refl

  ending_count :
      (p : Result IdentityError ℕ × IdentityState) (cid account : Text) (s : IdentityState)
      → mint_token env cid s ≡ p
      → Mints env s p
      → Mints env s (mint_and_deliver env cid account s)
  unfolding mint_and_deliver
  ending_count (ok n, s') cid account s e h =
      ground
        (arith, delivered_count n account s', frozen_count account (deliver_nft env n account s'))
  ending_count (err x, s') cid account s e h = ground arith

  ending-Mints :
      (cid account : Text) (s : IdentityState) → Mints env s (mint_and_deliver env cid account s)
  ending-Mints cid account s =
      ending_count (mint_token env cid s) cid account s refl (mint_token-Mints cid s)

  mint_did_nft-Mints :
      (account : Text) (s : IdentityState) → Mints env s (mint_did_nft env account s)
  unfolding mint_did_nft metadata_reference
  mint_did_nft-Mints account s = elim (Bool-cases env.did_token_configured) [
    | inr f ↦ ground arith
    | inl t ↦ elim (Option-cases (env.upload_json s.readings)) [
      | inl u ↦ ground (
        arith,
        ending-Mints (env.metadata_digest (s.readings + 1)) account
            (record s { readings = s.readings + 1 + 1 }),
      )
      | inr (cid, u) ↦
          ground (arith, ending-Mints cid account (record s { readings = s.readings + 1 }))
    ]
  ]

  -- In an onboarding every failure of the minting is reported as one of it.
  abbrev MintsFor : IdentityState → Result IdentityError Minted × IdentityState → Type 0
  MintsFor s (ok minted, s') = nft_count s' ≡ suc (nft_count s)
  MintsFor s (err e, s') = (e ≡ did_nft_mint_failed) × MayMint env s s'

  mint_for-MintsFor : (user : Person) (s : IdentityState) → MintsFor s (mint_for env user s)
  unfolding mint_for
  mint_for-MintsFor user s =
      by_answer (mint_did_nft env (get_or user.hedera_account_id 0) s)
        (mint_did_nft-Mints (get_or user.hedera_account_id 0) s)
    where
      by_answer :
          (p : Result IdentityError Minted × IdentityState)
          → Mints env s p
          → MintsFor s (onboarding_failure p.0, p.1)
      by_answer (ok minted, s') h = h
      by_answer (err e, s') h = (refl, h)

  -- The topics mint nothing, and fail in one way.
  abbrev GivesTopics : IdentityState → Result IdentityError Topics × IdentityState → Type 0
  GivesTopics s (ok topics, s') = nft_count s' ≡ nft_count s
  GivesTopics s (err e, s') = (e ≡ topic_creation) × (nft_count s' ≡ nft_count s)

  topics_of-GivesTopics : (user : Person) (s : IdentityState) → GivesTopics s (topics_of env user s)
  unfolding topics_of create_user_topics
  topics_of-GivesTopics user s =
      elim (Bool-cases (is_present user.public_feed_topic && is_present user.notification_topic)) [
        | inl t ↦ ground arith
        | inr f ↦ elim (Option-cases (env.create_topic s.readings)) [
          | inl n ↦ ground arith
          | inr (feed, n) ↦ elim (Option-cases (env.create_topic (s.readings + 1))) [
            | inl m ↦ ground arith
            | inr (inbox, m) ↦ ground arith
          ]
        ]
      ]

-- The NFTs that an onboarding which throws leaves behind, by what it throws.
abbrev pub Wastes : IdentityEnv → IdentityError → IdentityState → IdentityState → Type 0
Wastes env topic_creation s s' = nft_count s' ≡ suc (nft_count s)
Wastes env did_nft_mint_failed s s' = MayMint env s s'
Wastes env e s s' = nft_count s' ≡ nft_count s

-- An onboarding that throws leaves the table of users as it was. If it throws since a topic could
-- not be created, it leaves one NFT more on the ledger than before; if it throws since the minting
-- failed, as many as before, or one more where the serial of the minted NFT was lost; and otherwise
-- as many.
pub complete_onboarding_fails :
    (env : IdentityEnv) (k : Text) (s : IdentityState) (e : IdentityError)
    → result (complete_onboarding env k) s ≡ err e
    → ((after (complete_onboarding env k) s).persons ≡ s.persons)
      × Wastes env e s (after (complete_onboarding env k) s)
unfolding complete_onboarding person_or_throw
complete_onboarding_fails env k s e failed = elim (Option-cases (find_person k s)) [
  | inl n ↦ (ground arith, ground arith)
  | inr (user, n) ↦ elim (Bool-cases (is_present user.hedera_account_id)) [
    | inr f ↦ (ground arith, ground arith)
    | inl t ↦
        let minting = mint_for-MintsFor env user s in
        elim (Result-cases (mint_for env user s).0) [
          | inr (x, m) ↦ (ground (arith, mint_for_frame env user s), ground (arith, minting))
          | inl (minted, m) ↦
              let topics = topics_of-GivesTopics env user (after (mint_for env user) s) in
              elim (Result-cases (topics_of env user (after (mint_for env user) s)).0) [
                | inr (x, h) ↦ (
                  ground (
                    arith,
                    mint_for_frame env user s,
                    topics_of_frame env user (after (mint_for env user) s),
                  ),
                  ground (arith, minting, topics),
                )
                | inl (given, h) ↦ absurd (ground arith)
              ]
        ]
  ]
]
