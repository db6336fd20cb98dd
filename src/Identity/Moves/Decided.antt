-- ===== src/Identity/Moves/Decided.antt =====
-- What becomes of a submission that is decided.
use mathlib.Core.Path.{subst}
use kalam_network.Prelude.{
  ℕ, ◌≡◌, ◌≢◌, refl, sym, ap, ◌∙◌, Text, is_present, Bool, true, false, Option, none, some, List,
  [], ◌∷◌, ◌==◌, if◌then◌else◌, is_some, arith, inl, inr, Bool-cases,
}
use kalam_network.Exec.{after, ok}
use kalam_network.Repo.{find_one, find_key, any, update_where, column_is}
use kalam_network.Repo.Laws.{find_one_sound}
use kalam_network.Identity.{
  UserStatus, kyc_submitted, kyc_rejected, active, AccountType, Person, IdentityState, IdentityEnv,
  find_person, update_person,
}
use kalam_network.Identity.Kyc.{
  KycDecision, approved, rejected, on_hold, can_submit, with_submission, decided, submit_kyc,
  submit_to_mirsad, auto_approve, handle_webhook, onboard_approved,
}
use kalam_network.Identity.Acts.{find_under}
use kalam_network.Identity.Moves.Submissions.{
  named, named_state, accepted_persons, submit_kyc-passed,
}
use kalam_network.Identity.Moves.Decisions.{first_webhook, later_webhook, decided-Acts}

abbrev pub asks : Text → Person → Bool
asks r p = column_is p.kyc_request_id r

-- The row that gets a request is the one that is found by it, if no other has it.
asks_found :
    (r k : Text) (f : Person → Person)
    → ((p : Person) → asks r (f p) ≡ true)
    → (persons : List Person) (u : Person) → any (asks r) persons ≡ false
    → find_key Person.id k persons ≡ some u
    → find_one (asks r) (update_where (λ p. Person.id p == k) f persons) ≡ some (f u)
unfolding find_one update_where
asks_found r k f given [] u unused here = ground arith
asks_found r k f given (p ∷ persons) u unused here = elim (Bool-cases (p.id == k)) [
  | inl t ↦ ground (arith, given p)
  | inr n ↦ ground (arith, asks_found r k f given persons u)
]

asks_kept :
    (r k : Text) (f : Person → Person)
    → ((p : Person) → asks r (f p) ≡ asks r p)
    → (persons : List Person)
    → any (asks r) (update_where (λ p. Person.id p == k) f persons) ≡ any (asks r) persons
unfolding find_one update_where
asks_kept r k f same [] = refl
asks_kept r k f same (p ∷ persons) = ground (arith, same p, asks_kept r k f same persons)

no_onboarding :
    (env : IdentityEnv) (d : KycDecision) (user : Person) (s : IdentityState)
    → d ≢ approved
    → onboard_approved env d (ok user) s ≡ s
unfolding onboard_approved
no_onboarding env approved user s other = absurd (other refl)
no_onboarding env rejected user s other = refl
no_onboarding env on_hold user s other = refl

module _ (env : IdentityEnv) (k : Text) (t : AccountType) (name : Text) (s : IdentityState)
    (user : Person) (here : find_person k s ≡ some user) (can : can_submit user.status ≡ true)
    (has : is_present user.hedera_account_id ≡ true) (configured : env.kyc_configured ≡ true)
    (answer : Text × ℕ) (accepted : env.submit_onboarding s.readings ≡ some answer)
    (unused : any (asks answer.0) s.persons ≡ false) where
  abbrev waiting : Person
  waiting = with_submission t answer (named name user)

  abbrev after_submission : IdentityState
  after_submission = after (submit_kyc env k t name) s

  submission_persons :
      after_submission.persons
      ≡ (update_person k
          (with_submission t answer)
          (named_state env k t name s user here can has)).persons
  submission_persons =
      ap (λ q. q.1.persons)
        (submit_kyc-passed env k t name s user here can has
          ∙ ap
              (λ b.
                (if b then submit_to_mirsad env k t else auto_approve env k t)
                  (named_state env k t name s user here can has))
              configured)
      ∙ accepted_persons env k t name s user here can has answer accepted

  waiting_here : find_person k after_submission ≡ some waiting
  unfolding find_person update_person with_submission
  waiting_here =
      ap (find_key Person.id k) submission_persons
      ∙ find_under k (with_submission t answer) (λ p. refl) k
          (named_state env k t name s user here can has).persons
      ∙ ground (arith, here, find_under k (named name) (λ p. refl) k s.persons)

  request_finds : find_one (asks answer.0) after_submission.persons ≡ some waiting
  unfolding find_person update_person with_submission
  request_finds =
      ap (find_one (asks answer.0)) submission_persons
      ∙ asks_found answer.0 k (with_submission t answer) (λ p. ground arith)
          (named_state env k t name s user here can has).persons (named name user)
          (asks_kept answer.0 k (named name) (λ p. refl) s.persons ∙ unused)
          (ground (arith, here, find_under k (named name) (λ p. refl) k s.persons))

  waiting_id : waiting.id ≡ k
  unfolding with_submission find_person
  waiting_id = ground (arith, find_one_sound (λ p. Person.id p == k) s.persons user here)

  waiting_found : find_person waiting.id after_submission ≡ some waiting
  waiting_found = ap (λ i. find_person i after_submission) waiting_id ∙ waiting_here

  waiting_status : waiting.status ≡ kyc_submitted
  unfolding with_submission
  waiting_status = refl

  waiting_completed : is_some waiting.kyc_completed_at ≡ is_some user.kyc_completed_at
  unfolding with_submission
  waiting_completed = refl

  decided_here :
      (d : KycDecision)
      → is_some user.kyc_completed_at ≡ false
      → find_person k (handle_webhook env answer.0 d after_submission)
        ≡ some (decided d (env.clock after_submission.readings) waiting)
  decided_here d first =
      let open_now = waiting_completed ∙ first in
      let acts = decided-Acts env answer.0 d after_submission waiting request_finds waiting_found in
      ap (find_person k)
        (first_webhook env answer.0 d after_submission waiting request_finds waiting_found open_now)
      ∙ acts.0 k
      ∙ ground (arith, waiting_id, waiting_here)

  not_redecided :
      (d : KycDecision)
      → d ≢ approved
      → is_some user.kyc_completed_at ≡ true
      → handle_webhook env answer.0 d after_submission ≡ after_submission
  not_redecided d other later =
      later_webhook env answer.0 d after_submission waiting request_finds waiting_found
        (waiting_completed ∙ later)
      ∙ no_onboarding env d waiting after_submission other

-- The status that a decision gives.
abbrev pub status_after : KycDecision → UserStatus
status_after approved = active
status_after rejected = kyc_rejected
status_after on_hold = kyc_submitted

abbrev pub HasStatus : UserStatus → Option Person → Type 0
HasStatus x none = ⊥
HasStatus x (some p) = p.status ≡ x

decided_status :
    (d : KycDecision) (at : ℕ) (p : Person)
    → p.status ≡ kyc_submitted
    → (decided d at p).status ≡ status_after d
unfolding decided
decided_status approved at p h = refl
decided_status rejected at p h = refl
decided_status on_hold at p h = h

module _ (env : IdentityEnv) (k : Text) (t : AccountType) (name : Text) (s : IdentityState)
    (user : Person) (d : KycDecision) (answer : Text × ℕ) where
  -- A user with an account, whose status allows a submission and who has no decision yet, submits
  -- to the KYC provider, which accepts under a request that no user has. When the callback for that
  -- request comes next, the user is active if it approves, rejected if it rejects, and still
  -- submitted if it is on hold.
  pub first_submission_decided :
      find_person k s ≡ some user
      → can_submit user.status ≡ true
      → is_present user.hedera_account_id ≡ true
      → env.kyc_configured ≡ true
      → env.submit_onboarding s.readings ≡ some answer
      → any (asks answer.0) s.persons ≡ false
      → is_some user.kyc_completed_at ≡ false
      → HasStatus
          (status_after d)
          (find_person k (handle_webhook env answer.0 d (after (submit_kyc env k t name) s)))
  first_submission_decided here can has configured accepted unused first =
      subst (HasStatus (status_after d))
        (sym
          (decided_here env k t name s user here can has configured answer accepted unused d first))
        (decided_status d _ (with_submission t answer (named name user))
          (waiting_status env k t name s user here can has configured answer accepted unused))

  -- A user with an account, whose status allows a submission but who has a decision already,
  -- submits to the KYC provider, which accepts under a request that no user has. The user is then
  -- submitted, and a callback for that request other than an approval changes nothing.
  pub resubmission_kept :
      find_person k s ≡ some user
      → can_submit user.status ≡ true
      → is_present user.hedera_account_id ≡ true
      → env.kyc_configured ≡ true
      → env.submit_onboarding s.readings ≡ some answer
      → any (asks answer.0) s.persons ≡ false
      → is_some user.kyc_completed_at ≡ true
      → d ≢ approved
      → (HasStatus kyc_submitted (find_person k (after (submit_kyc env k t name) s)))
        × (handle_webhook env answer.0 d (after (submit_kyc env k t name) s)
            ≡ after (submit_kyc env k t name) s)
  resubmission_kept here can has configured accepted unused later other = (
    subst (HasStatus kyc_submitted)
        (sym (waiting_here env k t name s user here can has configured answer accepted unused))
        (waiting_status env k t name s user here can has configured answer accepted unused),
    not_redecided env k t name s user here can has configured answer accepted unused d other later,
  )
