-- ===== src/Identity/Moves/Decisions.antt =====
-- The callbacks of the KYC provider change a user by a move.
use mathlib.Core.Path.{subst}
use kalam_network.Prelude.{
  ℕ, ◌+◌, ◌≡◌, refl, sym, ap, ◌∙◌, Text, is_present, true, false, none, some, is_some, arith, inl,
  inr, Bool-cases, Option-cases,
}
use kalam_network.Exec.{Result, ok, after}
use kalam_network.Repo.{find_one, column_is}
use kalam_network.Repo.Laws.{find_one_sound}
use kalam_network.Repo.Keyed.{find_by_own_key}
use kalam_network.Identity.{
  Topics, IdentityError, Person, IdentityState, IdentityEnv, update_person, find_person,
  person_or_throw,
}
use kalam_network.Identity.DidNft.{Minted}
use kalam_network.Identity.Onboarding.{complete_onboarding, onboarded}
use kalam_network.Identity.Kyc.{
  KycDecision, approved, rejected, on_hold, is_active_status, decided, decide_request,
  handle_kyc_callback, onboard_approved, handle_webhook,
}
use kalam_network.Identity.Acts.{Acts, update_person-Acts, KeepsId}
use kalam_network.Identity.Acts.Onboards.{Writes, IsOnboardingOf, complete_onboarding-Writes}
use kalam_network.Identity.Moves.{
  webhook_call, standing, Moves, approves, rejects, holds, onboards, IsMove, Does, HasUniqueIds,
}

module _ (env : IdentityEnv) (r : Text) (d : KycDecision) (s : IdentityState) (user : Person)
    (asked : find_one (λ p. column_is (Person.kyc_request_id p) r) s.persons ≡ some user)
    (here : find_person user.id s ≡ some user) where
  requested : column_is user.kyc_request_id r ≡ true
  requested = find_one_sound (λ p. column_is (Person.kyc_request_id p) r) s.persons user asked

  same_asked : (p : Person) → find_person user.id s ≡ some p → p ≡ user
  same_asked p e = ground arith

  ask : (p : Person) → find_person user.id s ≡ some p → column_is p.kyc_request_id r ≡ true
  ask p e = ap (λ (q : Person). column_is q.kyc_request_id r) (same_asked p e) ∙ requested

  open_case :
      (p : Person)
      → find_person user.id s ≡ some p
      → is_some user.kyc_completed_at ≡ false
      → is_some p.kyc_completed_at ≡ false
  open_case p e f = ap (λ (q : Person). is_some q.kyc_completed_at) (same_asked p e) ∙ f

  decided-IsMove :
      (d : KycDecision) (at : ℕ)
      → is_some user.kyc_completed_at ≡ false
      → IsMove env (webhook_call r d) user.id s (decided d at)
  unfolding decided
  decided-IsMove approved at f p e = approves (ask p e) (open_case p e f)
  decided-IsMove rejected at f p e = rejects (ask p e) (open_case p e f)
  decided-IsMove on_hold at f p e = holds (ask p e) (open_case p e f)

  -- The state after a first decision.
  abbrev pub decided_state : IdentityState
  decided_state =
      update_person user.id (decided d (env.clock s.readings))
        (record s { readings = s.readings + 1 })

  decided-KeepsId : (d : KycDecision) (at : ℕ) → KeepsId (decided d at)
  unfolding decided
  decided-KeepsId approved at p = refl
  decided-KeepsId rejected at p = refl
  decided-KeepsId on_hold at p = refl

  pub decided-Acts : Acts user.id (decided d (env.clock s.readings)) s decided_state
  unfolding update_person
  decided-Acts =
      update_person-Acts user.id (decided d (env.clock s.readings)) s decided_state
        (decided-KeepsId d (env.clock s.readings)) refl

  pub first_decision :
      is_some user.kyc_completed_at ≡ false
      → handle_kyc_callback env r d s ≡ (ok (decided d (env.clock s.readings) user), decided_state)
  unfolding handle_kyc_callback decide_request person_or_throw
  first_decision f =
      let found : find_person user.id decided_state ≡ some (decided d (env.clock s.readings) user) =
        decided-Acts.0 user.id ∙ ground (arith, here) in
      ground (arith, found)

  pub later_decision :
      is_some user.kyc_completed_at ≡ true → handle_kyc_callback env r d s ≡ (ok user, s)
  unfolding handle_kyc_callback
  later_decision t = ground arith

  onboard_decided :
      (d : KycDecision) (at : ℕ) (s' : IdentityState)
      → onboard_approved env d (ok (decided d at user)) s' ≡ s'
  unfolding onboard_approved decided
  onboard_decided approved at s' = refl
  onboard_decided rejected at s' = refl
  onboard_decided on_hold at s' = refl

  pub first_webhook :
      is_some user.kyc_completed_at ≡ false → handle_webhook env r d s ≡ decided_state
  unfolding handle_webhook
  first_webhook f =
      ap (λ (q : Result IdentityError Person × IdentityState). onboard_approved env d q.0 q.1)
        (first_decision f)
      ∙ onboard_decided d (env.clock s.readings) decided_state

  pub later_webhook :
      is_some user.kyc_completed_at ≡ true
      → handle_webhook env r d s ≡ onboard_approved env d (ok user) s
  unfolding handle_webhook
  later_webhook t =
      ap (λ (q : Result IdentityError Person × IdentityState). onboard_approved env d q.0 q.1)
        (later_decision t)

  late_approval-IsMove :
      (minted : Minted) (topics : Topics) (f : Person → Person) (u : Person)
      → f ≡ onboarded minted topics
      → is_some user.kyc_completed_at ≡ true
      → find_person user.id s ≡ some u
      → is_present u.hedera_account_id ≡ true
      → IsMove env (webhook_call r approved) user.id s f
  unfolding onboarded
  late_approval-IsMove minted topics f u same t found has p e =
      subst
        (λ (g : Person → Person).
          Moves env user.id (webhook_call r approved) (standing p) (standing (g p)))
        (sym same)
        (onboards (ask p e) (ap (λ (q : Person). is_some q.kyc_completed_at) (same_asked p e) ∙ t) (
          ap (λ (q : Person). is_present q.hedera_account_id)
            (same_asked p e ∙ sym (same_asked u found))
          ∙ has))

  onboarding-Does :
      is_some user.kyc_completed_at ≡ true
      → (d : KycDecision) → Does env (webhook_call r d) s (onboard_approved env d (ok user) s)
  unfolding onboard_approved
  onboarding-Does t rejected = inl refl
  onboarding-Does t on_hold = inl refl
  onboarding-Does t approved = elim (Bool-cases (is_active_status user.status)) [
    | inl a ↦ inl (ground arith)
    | inr a ↦ rw a (by_onboarding (complete_onboarding-Writes env user.id s))
  ]
    where
      by_onboarding :
          Writes user.id (IsOnboardingOf user.id s) s (after (complete_onboarding env user.id) s)
          → Does env (webhook_call r approved) s (after (complete_onboarding env user.id) s)
      by_onboarding (inl same) = inl same
      by_onboarding (inr (f, ((u, (found, (has, (minted, (topics, e))))), acts))) =
          inr (user.id, (f, (late_approval-IsMove minted topics f u e t found has, acts)))

  known_webhook-Does : Does env (webhook_call r d) s (handle_webhook env r d s)
  known_webhook-Does = elim (Bool-cases (is_some user.kyc_completed_at)) [
    | inl t ↦ subst (Does env (webhook_call r d) s) (sym (later_webhook t)) (onboarding-Does t d)
    | inr f ↦ subst (Does env (webhook_call r d) s) (sym (first_webhook f)) (
        inr (
          user.id,
          (
            decided d (env.clock s.readings),
            (decided-IsMove d (env.clock s.readings) f, decided-Acts),
          ),
        ))
  ]

pub handle_webhook-Does :
    (env : IdentityEnv) (r : Text) (d : KycDecision) (s : IdentityState)
    → HasUniqueIds s
    → Does env (webhook_call r d) s (handle_webhook env r d s)
unfolding handle_webhook handle_kyc_callback onboard_approved find_person
handle_webhook-Does env r d s unique =
    elim (Option-cases (find_one (λ p. column_is (Person.kyc_request_id p) r) s.persons)) [
      | inl n ↦ inl (unknown d n)
      | inr (user, n) ↦ known_webhook-Does env r d s user n (
          find_by_own_key Person.id (λ p. column_is (Person.kyc_request_id p) r) s.persons user n
            (unique user.id))
    ]
  where
    unknown :
        (d : KycDecision)
        → find_one (λ p. column_is (Person.kyc_request_id p) r) s.persons ≡ none
        → (handle_webhook env r d s).persons ≡ s.persons
    unknown approved n = ground arith
    unknown rejected n = ground arith
    unknown on_hold n = ground arith
