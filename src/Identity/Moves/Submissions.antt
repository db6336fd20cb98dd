-- ===== src/Identity/Moves/Submissions.antt =====
-- The submissions to the KYC service change a user by a move.
use mathlib.Core.Path.{subst}
use kalam_network.Prelude.{
  ℕ, ◌+◌, ◌≡◌, refl, sym, ap, ◌∙◌, Text, is_present, true, false, some, if◌then◌else◌, arith, inl,
  inr, Bool-cases, Option-cases,
}
use kalam_network.Exec.{Result, ok, err, after, continue, pure, ◌>>=◌}
use kalam_network.Identity.{
  Topics, Identity, AccountType, IdentityError, Person, IdentityState, IdentityEnv, update_person,
  find_person, person_or_throw,
}
use kalam_network.Identity.DidNft.{Minted}
use kalam_network.Identity.Onboarding.{complete_onboarding, onboarded}
use kalam_network.Identity.Kyc.{
  can_submit, validate_for_kyc, with_submission, demo_submitted, submit_to_mirsad, auto_approve,
  submit_kyc,
}
use kalam_network.Identity.Acts.{Acts, nobody-Acts, update_person-Acts, Acts-Acts}
use kalam_network.Identity.Acts.Onboards.{Writes, IsOnboardingOf, complete_onboarding-Writes}
use kalam_network.Identity.Moves.{
  submit_call, standing, Moves, stays, submits, demo_stops, demo_approves, IsMove, Does,
}

-- The answer of a call does not change what it has written.
same_after :
    {A B : Type 0} (m : Identity A) (b : B) (s : IdentityState)
    → after (m >>= λ _. pure b) s ≡ after m s
same_after {A} {B} m b s = by_answer (m s)
  where
    by_answer :
        (p : Result IdentityError A × IdentityState)
        → (continue {B = B} p.0 (λ _. pure b) p.1).1 ≡ p.1
    by_answer (ok a, s') = refl
    by_answer (err e, s') = refl

abbrev pub named : Text → Person → Person
named name p = record p { display_name = some name }

module _ (env : IdentityEnv) (k : Text) (t : AccountType) (name : Text) (s : IdentityState)
    (user : Person) (here : find_person k s ≡ some user) (can : can_submit user.status ≡ true)
    (has : is_present user.hedera_account_id ≡ true) where
  abbrev pub named_state : IdentityState
  named_state = update_person k (named name) s

  pub named-Acts : Acts k (named name) s named_state
  named-Acts = update_person-Acts k (named name) s named_state (λ p. refl) refl

  -- The user that is looked up is the one that the guards have seen.
  same_user : (p : Person) → find_person k s ≡ some p → p ≡ user
  same_user p e = ground arith

  submission-IsMove :
      (answer : Text × ℕ)
      → env.kyc_configured ≡ true
      → IsMove env (submit_call k t name) k s (λ p. with_submission t answer (named name p))
  unfolding with_submission
  submission-IsMove answer c p e =
      submits c (ap (λ (q : Person). can_submit q.status) (same_user p e) ∙ can)
        (ap (λ (q : Person). is_present q.hedera_account_id) (same_user p e) ∙ has)

  -- The users after a submission that Mirsad accepts.
  pub accepted_persons :
      (answer : Text × ℕ)
      → env.submit_onboarding s.readings ≡ some answer
      → (after (submit_to_mirsad env k t) named_state).persons
        ≡ (update_person k (with_submission t answer) named_state).persons
  unfolding submit_to_mirsad update_person
  accepted_persons answer n = ground arith

  mirsad-Does :
      env.kyc_configured ≡ true
      → Does env (submit_call k t name) s (after (submit_to_mirsad env k t) named_state)
  unfolding submit_to_mirsad update_person with_submission
  mirsad-Does c = elim (Option-cases (env.submit_onboarding s.readings)) [
    | inl n ↦ inr (
      k,
      (
        named name,
        ((λ p e. stays), update_person-Acts k (named name) s _ (λ p. refl) (ground arith)),
      ),
    )
    | inr (answer, n) ↦ inr (
      k,
      (
        (λ p. with_submission t answer (named name p)),
        (
          submission-IsMove answer c,
          Acts-Acts k (named name) (with_submission t answer) s named_state _ named-Acts (
              update_person-Acts k (with_submission t answer) named_state _ (λ p. refl)
                (ground arith)),
        ),
      ),
    )
  ]

  -- The state in which the onboarding of the demo mode starts.
  abbrev demo_change : Person → Person
  demo_change = demo_submitted t (env.demo_request_id k) (env.clock s.readings)

  abbrev demo_state : IdentityState
  demo_state = update_person k demo_change (record named_state { readings = s.readings + 1 })

  demo-Acts : Acts k (λ p. demo_change (named name p)) s demo_state
  unfolding update_person demo_submitted
  demo-Acts =
      Acts-Acts k (named name) demo_change s named_state demo_state named-Acts
        (update_person-Acts k demo_change named_state demo_state (λ p. refl) refl)

  demo_stop-IsMove :
      env.kyc_configured ≡ false
      → IsMove env (submit_call k t name) k s (λ p. demo_change (named name p))
  unfolding demo_submitted
  demo_stop-IsMove c p e =
      demo_stops c (ap (λ (q : Person). can_submit q.status) (same_user p e) ∙ can)
        (ap (λ (q : Person). is_present q.hedera_account_id) (same_user p e) ∙ has)

  demo_approval-IsMove :
      (minted : Minted) (topics : Topics) (f : Person → Person)
      → f ≡ onboarded minted topics
      → env.kyc_configured ≡ false
      → IsMove env (submit_call k t name) k s (λ p. f (demo_change (named name p)))
  unfolding demo_submitted onboarded
  demo_approval-IsMove minted topics f same c p e =
      subst
        (λ (g : Person → Person).
          Moves env k (submit_call k t name) (standing p)
            (standing (g (demo_change (named name p)))))
        (sym same)
        (demo_approves c (ap (λ (q : Person). can_submit q.status) (same_user p e) ∙ can)
          (ap (λ (q : Person). is_present q.hedera_account_id) (same_user p e) ∙ has))

  demo-Does :
      env.kyc_configured ≡ false
      → Does env (submit_call k t name) s (after (complete_onboarding env k) demo_state)
  demo-Does c = by_onboarding (complete_onboarding-Writes env k demo_state)
    where
      by_onboarding :
          Writes k
            (IsOnboardingOf k demo_state)
            demo_state
            (after (complete_onboarding env k) demo_state)
          → Does env (submit_call k t name) s (after (complete_onboarding env k) demo_state)
      by_onboarding (inl same) = inr (
        k,
        (
          (λ p. demo_change (named name p)),
          (
            demo_stop-IsMove c,
            Acts-Acts k (λ p. demo_change (named name p)) (λ p. p) s demo_state _ demo-Acts
                (nobody-Acts k demo_state _ same),
          ),
        ),
      )
      by_onboarding (inr (f, ((u, (found, (has', (minted, (topics, e))))), acts))) = inr (
        k,
        (
          (λ p. f (demo_change (named name p))),
          (
            demo_approval-IsMove minted topics f e c,
            Acts-Acts k (λ p. demo_change (named name p)) f s demo_state _ demo-Acts acts,
          ),
        ),
      )

  pub submit_kyc-passed :
      submit_kyc env k t name s
      ≡ (if env.kyc_configured then submit_to_mirsad env k t else auto_approve env k t) named_state
  unfolding submit_kyc validate_for_kyc person_or_throw
  submit_kyc-passed = ground arith

  demo_after :
      after (auto_approve env k t) named_state ≡ after (complete_onboarding env k) demo_state
  unfolding auto_approve update_person
  demo_after = same_after (complete_onboarding env k) (env.demo_request_id k) demo_state

  passed-Does : Does env (submit_call k t name) s (after (submit_kyc env k t name) s)
  passed-Does = elim (Bool-cases env.kyc_configured) [
    | inl c ↦
        subst (Does env (submit_call k t name) s)
          (sym (
            ap (λ q. q.1)
              (submit_kyc-passed
                ∙ ap
                    (λ b.
                      (if b then submit_to_mirsad env k t else auto_approve env k t) named_state)
                    c)))
          (mirsad-Does c)
    | inr c ↦
        subst (Does env (submit_call k t name) s)
          (sym (
            ap (λ q. q.1)
              (submit_kyc-passed
                ∙ ap
                    (λ b.
                      (if b then submit_to_mirsad env k t else auto_approve env k t) named_state)
                    c)
            ∙ demo_after))
          (demo-Does c)
  ]

pub submit_kyc-Does :
    (env : IdentityEnv) (k : Text) (t : AccountType) (name : Text) (s : IdentityState)
    → Does env (submit_call k t name) s (after (submit_kyc env k t name) s)
unfolding submit_kyc validate_for_kyc person_or_throw
submit_kyc-Does env k t name s = elim (Option-cases (find_person k s)) [
  | inl n ↦ inl (ground arith)
  | inr (user, n) ↦ elim (Bool-cases (can_submit user.status)) [
    | inr f ↦ inl (ground arith)
    | inl c ↦ elim (Bool-cases (is_present user.hedera_account_id)) [
      | inr f ↦ inl (ground arith)
      | inl h ↦ passed-Does env k t name s user n c h
    ]
  ]
]
