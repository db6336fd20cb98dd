-- ===== src/Identity/Acts/Onboards.antt =====
-- What an onboarding writes to the table of users.
use mathlib.Core.Path.{subst}
use kalam_network.Prelude.{
  ℕ, ◌+◌, ◌≡◌, ◌⊎◌, refl, sym, ap, ◌∙◌, Text, is_present, get_or, true, not, Option, some, ◌==◌,
  arith, inl, inr, Bool-cases, Option-cases,
}
use kalam_network.Exec.{
  >>=-ok, Result-cases, throw_if, continue, modify, ◌>>=◌, ◌>>◌, Result, ok, err, after,
}
use kalam_network.Repo.{update_where}
use kalam_network.Identity.{
  no_hedera_account, Identity, draw_or, Person, IdentityError, IdentityState, IdentityEnv, Topics,
  update_person, find_person, person_or_throw, create_user_topics,
}
use kalam_network.Identity.DidNft.{
  Minted, mint_did_nft, metadata_reference, mint_token, mint_and_deliver, add_nft, deliver_nft,
  freeze_nft, update_nft,
}
use kalam_network.Identity.Onboarding.{
  mint_for, topics_of, submit_attestation, onboarded, complete_onboarding,
}
use kalam_network.Identity.Acts.{KeepsId, Acts, nobody-Acts, update_person-Acts, Acts-Acts}

-- A call that leaves the users alone, whatever it answers.
abbrev pub LeavesUsers : {A : Type 0} → Identity A → Type 0
LeavesUsers m = (s : IdentityState) → (after m s).persons ≡ s.persons

pub draw_or_frame : {A : Type 0} (f : ℕ → Option A) (e : IdentityError) → LeavesUsers (draw_or f e)
draw_or_frame f e s = elim (Option-cases (f s.readings)) [
  | inl n ↦ ground arith
  | inr (a, n) ↦ ground arith
]

-- The minting, the topics and the attestation leave the users alone.
module _ (env : IdentityEnv) where
  reference_frame : LeavesUsers (metadata_reference env)
  unfolding metadata_reference
  reference_frame s = ground arith

  delivery_frame :
      (n : ℕ) (account : Text) (s : IdentityState)
      → (deliver_nft env n account s).persons ≡ s.persons
  unfolding deliver_nft update_nft
  delivery_frame n account s = ground arith

  freezing_frame :
      (account : Text) (s : IdentityState) → (freeze_nft env account s).persons ≡ s.persons
  unfolding freeze_nft
  freezing_frame account s = ground arith

  token_frame : (cid : Text) → LeavesUsers (mint_token env cid)
  unfolding mint_token add_nft
  token_frame cid s = ground arith

  ending_frame : (cid account : Text) → LeavesUsers (mint_and_deliver env cid account)
  unfolding mint_and_deliver
  ending_frame cid account s = elim (Result-cases (mint_token env cid s).0) [
    | inl (n, e) ↦ ground (
      arith,
      token_frame cid s,
      delivery_frame n account (after (mint_token env cid) s),
      freezing_frame account (deliver_nft env n account (after (mint_token env cid) s)),
    )
    | inr (x, e) ↦ ground (arith, token_frame cid s)
  ]

  minting_frame : (account : Text) → LeavesUsers (mint_did_nft env account)
  unfolding mint_did_nft metadata_reference
  minting_frame account s = elim (Bool-cases env.did_token_configured) [
    | inr f ↦ ground arith
    | inl t ↦ elim (Option-cases (env.upload_json s.readings)) [
      | inl u ↦ ground (
        arith,
        ending_frame (env.metadata_digest (s.readings + 1)) account
            (record s { readings = s.readings + 1 + 1 }),
      )
      | inr (cid, u) ↦
          ground (arith, ending_frame cid account (record s { readings = s.readings + 1 }))
    ]
  ]

  pub mint_for_frame : (user : Person) → LeavesUsers (mint_for env user)
  unfolding mint_for
  mint_for_frame user s = minting_frame (get_or user.hedera_account_id 0) s

  pub topics_frame : LeavesUsers (create_user_topics env)
  unfolding create_user_topics
  topics_frame s = ground arith

  pub topics_of_frame : (user : Person) → LeavesUsers (topics_of env user)
  unfolding topics_of
  topics_of_frame user s = ground (arith, topics_frame s)

  attestation_frame :
      (user : Person) (n : ℕ) (s : IdentityState)
      → (submit_attestation env user n s).persons ≡ s.persons
  unfolding submit_attestation
  attestation_frame user n s = ground arith

-- A change of the users under `j` by one of the functions `P`, or none.
abbrev pub Writes : Text → ((Person → Person) → Type 0) → IdentityState → IdentityState → Type 0
Writes j P s s' = (s'.persons ≡ s.persons) ⊎ ((f : Person → Person) × (P f × Acts j f s s'))

-- The columns that an onboarding writes, for one who has an account.
abbrev pub IsOnboarding : Person → (Person → Person) → Type 0
IsOnboarding user f =
    (is_present user.hedera_account_id ≡ true)
    × ((minted : Minted) × ((topics : Topics) × (f ≡ onboarded minted topics)))

onboarded-KeepsId : (minted : Minted) (topics : Topics) → KeepsId (onboarded minted topics)
unfolding onboarded
onboarded-KeepsId minted topics p = refl

module _ (env : IdentityEnv) (k : Text) (user : Person) where
  -- The end of an onboarding, from the minting on.
  abbrev onboard : Identity Unit
  onboard = mint_for env user >>= λ minted. topics_of env user >>= λ topics.
      modify (submit_attestation env user minted.minted_serial)
      >> modify (update_person k (onboarded minted topics))

  written :
      (minted : Minted) (topics : Topics) (s : IdentityState)
      → Acts k (onboarded minted topics) s (
          update_person k
            (onboarded minted topics)
            (submit_attestation env user minted.minted_serial s))
  unfolding update_person
  written minted topics s =
      update_person-Acts k (onboarded minted topics) s _ (onboarded-KeepsId minted topics) (
        ap (update_where (λ p. Person.id p == k) (onboarded minted topics))
          (attestation_frame env user minted.minted_serial s))

  onboard-Writes :
      is_present user.hedera_account_id ≡ true
      → (s : IdentityState) → Writes k (IsOnboarding user) s (after onboard s)
  onboard-Writes has s = by_minting (mint_for env user s) (mint_for_frame env user s)
    where
      by_topics :
          (minted : Minted) (p : Result IdentityError Topics × IdentityState)
          → p.1.persons ≡ s.persons
          → Writes k
              (IsOnboarding user)
              s
              (continue p.0
                (λ topics.
                  modify (submit_attestation env user minted.minted_serial)
                  >> modify (update_person k (onboarded minted topics)))
                p.1).1
      by_topics minted (err e, s') same = inl same
      by_topics minted (ok topics, s') same = inr (
        onboarded minted topics,
        (
          (has, (minted, (topics, refl))),
          Acts-Acts k (λ p. p) (onboarded minted topics) s s' _ (nobody-Acts k s s' same)
              (written minted topics s'),
        ),
      )

      by_minting :
          (p : Result IdentityError Minted × IdentityState)
          → p.1.persons ≡ s.persons
          → Writes k
              (IsOnboarding user)
              s
              (continue p.0
                (λ minted. topics_of env user >>= λ topics.
                  modify (submit_attestation env user minted.minted_serial)
                  >> modify (update_person k (onboarded minted topics)))
                p.1).1
      by_minting (err e, s') same = inl same
      by_minting (ok minted, s') same =
          by_topics minted (topics_of env user s') (topics_of_frame env user s' ∙ same)

-- An onboarding writes the user that is looked up, or nothing.
abbrev pub IsOnboardingOf : Text → IdentityState → (Person → Person) → Type 0
IsOnboardingOf k s f = (user : Person) × ((find_person k s ≡ some user) × IsOnboarding user f)

pub found_or_throw :
    (k : Text) (s : IdentityState) (user : Person)
    → find_person k s ≡ some user
    → person_or_throw k s ≡ (ok user, s)
unfolding person_or_throw
found_or_throw k s user n = ground arith

pub complete_onboarding-found :
    (env : IdentityEnv) (k : Text) (s : IdentityState) (user : Person)
    → find_person k s ≡ some user
    → is_present user.hedera_account_id ≡ true
    → complete_onboarding env k s ≡ onboard env k user s
unfolding complete_onboarding
complete_onboarding-found env k s user n t =
    >>=-ok (person_or_throw k)
      (λ user.
        throw_if (not (is_present user.hedera_account_id)) no_hedera_account >> onboard env k user)
      s s user (found_or_throw k s user n)
    ∙ >>=-ok (throw_if (not (is_present user.hedera_account_id)) no_hedera_account)
        (λ _. onboard env k user) s s tt (ground arith)

pub complete_onboarding-Writes :
    (env : IdentityEnv) (k : Text) (s : IdentityState)
    → Writes k (IsOnboardingOf k s) s (after (complete_onboarding env k) s)
unfolding complete_onboarding person_or_throw
complete_onboarding-Writes env k s = elim (Option-cases (find_person k s)) [
  | inl n ↦ inl (ground arith)
  | inr (user, n) ↦ elim (Bool-cases (is_present user.hedera_account_id)) [
    | inr f ↦ inl (ground arith)
    | inl t ↦
        let p : after (onboard env k user) s ≡ after (complete_onboarding env k) s =
          ap (λ q. q.1) (sym (complete_onboarding-found env k s user n t)) in
        subst (Writes k (IsOnboardingOf k s) s) p (of_user user n _ (onboard-Writes env k user t s))
  ]
]
  where
    of_user :
        (user : Person)
        → find_person k s ≡ some user
        → (s' : IdentityState) → Writes k (IsOnboarding user) s s'
        → Writes k (IsOnboardingOf k s) s s'
    of_user user n s' (inl same) = inl same
    of_user user n s' (inr (f, (is, acts))) = inr (f, ((user, (n, is)), acts))
