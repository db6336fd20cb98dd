-- ===== src/Identity/Moves.antt =====
-- The life cycle of a user: what each call may do to the status and to what decides about it.
pub mod Wallets
pub mod Submissions
pub mod Decisions
pub mod Lifecycle
pub mod Decided
use mathlib.Core.Path.{subst}
use kalam_network.Prelude.{
  ℕ, ◌+◌, ◌≡◌, ◌≤◌, ◌⊎◌, refl, sym, ap, ◌∙◌, Text, is_present, Bool, true, false, ◌&&◌, not, Option,
  none, some, List, [], ◌∷◌, ◌++◌, ◌==◌, if◌then◌else◌, is_some, arith, inl, inr, Bool-cases,
  Option-cases,
}
use kalam_network.Exec.{Result, ok, err, after, result, Result-cases, continue}
use kalam_network.Repo.{find_key, count, find_one, column_is}
use kalam_network.Repo.Laws.{find_one_sound}
use kalam_network.Repo.Keyed.{find_by_own_key}
use kalam_network.Identity.{
  UserStatus, pending_kyc, kyc_submitted, kyc_rejected, active, AccountType, Vault, Topics, Person,
  IdentityError, IdentityState, IdentityEnv, update_person, find_person, person_or_throw,
  create_user_topics,
}
use kalam_network.Identity.Wallet.{create_wallet, ensure_encryption_key, store_key_backup}
use kalam_network.Identity.Kyc.{
  KycDecision, approved, rejected, on_hold, can_submit, submit_kyc, handle_kyc_callback,
  handle_webhook,
}
use kalam_network.Identity.Acts.{
  Acts, on_found, id_count, nobody-Acts, update_person-Acts, Acts-Acts,
}
use kalam_network.Identity.Acts.Onboards.{Writes, IsOnboardingOf, complete_onboarding-Writes}

pub data IdentityCall : Type 0 where
  wallet_call : Text → IdentityCall
  key_call : Text → Bool → IdentityCall
  backup_call : Text → Text → IdentityCall
  submit_call : Text → AccountType → Text → IdentityCall
  webhook_call : Text → KycDecision → IdentityCall

-- What the services decide_request by.
pub record Standing : Type 0 where
  pub status : UserStatus
  pub account : Option Text
  pub request : Option Text
  pub is_completed : Bool

abbrev pub standing : Person → Standing
standing p = record {
  status = p.status;
  account = p.hedera_account_id;
  request = p.kyc_request_id;
  is_completed = is_some p.kyc_completed_at;
}

-- What a call may do to the user `k`.
pub data Moves (env : IdentityEnv) (k : Text) : IdentityCall → Standing → Standing → Type 0 where
  stays : {c : IdentityCall} {x : Standing} → Moves env k c x x
  opens :
      {x : Standing} (a : Text)
      → is_present x.account ≡ false
      → env.custody_configured ≡ true
      → Moves env k (wallet_call k) x (record x { status = pending_kyc; account = some a })
  submits :
      {x : Standing} {t : AccountType} {name r : Text}
      → env.kyc_configured ≡ true
      → can_submit x.status ≡ true
      → is_present x.account ≡ true
      → Moves env k (submit_call k t name) x (record x { status = kyc_submitted; request = some r })
  demo_stops :
      {x : Standing} {t : AccountType} {name : Text}
      → env.kyc_configured ≡ false
      → can_submit x.status ≡ true
      → is_present x.account ≡ true
      → Moves env k (submit_call k t name) x (record x { request = some (env.demo_request_id k) })
  demo_approves :
      {x : Standing} {t : AccountType} {name : Text}
      → env.kyc_configured ≡ false
      → can_submit x.status ≡ true
      → is_present x.account ≡ true
      → Moves env k
          (submit_call k t name)
          x
          (record x { status = active; request = some (env.demo_request_id k) })
  approves :
      {x : Standing} {r : Text}
      → column_is x.request r ≡ true
      → x.is_completed ≡ false
      → Moves env k (webhook_call r approved) x (record x { status = active; is_completed = true })
  rejects :
      {x : Standing} {r : Text}
      → column_is x.request r ≡ true
      → x.is_completed ≡ false
      → Moves env k
          (webhook_call r rejected)
          x
          (record x { status = kyc_rejected; is_completed = true })
  holds :
      {x : Standing} {r : Text}
      → column_is x.request r ≡ true
      → x.is_completed ≡ false
      → Moves env k (webhook_call r on_hold) x (record x { is_completed = true })
  onboards :
      {x : Standing} {r : Text}
      → column_is x.request r ≡ true
      → x.is_completed ≡ true
      → is_present x.account ≡ true
      → Moves env k (webhook_call r approved) x (record x { status = active })

-- Users are neither added nor removed.
abbrev pub Relates : IdentityEnv → Text → IdentityCall → Option Person → Option Person → Type 0
Relates env k c none none = Unit
Relates env k c none (some p) = ⊥
Relates env k c (some p) none = ⊥
Relates env k c (some p) (some p') = Moves env k c (standing p) (standing p')

abbrev pub HasUniqueIds : IdentityState → Type 0
HasUniqueIds s = (k : Text) → id_count k s.persons ≤ 1

module _ (env : IdentityEnv) where
  unfoldable pub step : IdentityCall → IdentityState → IdentityState
  step (wallet_call k) s = after (create_wallet env k) s
  step (key_call k force) s = after (ensure_encryption_key env k force) s
  step (backup_call k blob) s = after (store_key_backup k blob) s
  step (submit_call k t name) s = after (submit_kyc env k t name) s
  step (webhook_call r d) s = handle_webhook env r d s

  unfoldable pub run : List IdentityCall → IdentityState → IdentityState
  run [] s = s
  run (c ∷ cs) s = run cs (step c s)

  -- The change of one user as a move.
  abbrev pub IsMove : IdentityCall → Text → IdentityState → (Person → Person) → Type 0
  IsMove c j s f =
      (p : Person) → find_person j s ≡ some p → Moves env j c (standing p) (standing (f p))

  same-Relates :
      (c : IdentityCall) (k : Text) (o o' : Option Person) → o' ≡ o → Relates env k c o o'
  same-Relates c k none o' e = subst (Relates env k c none) (sym e) tt
  same-Relates c k (some p) o' e = subst (Relates env k c (some p)) (sym e) stays

  acted-Relates :
      (c : IdentityCall) (j k : Text) (f : Person → Person) (o o' : Option Person)
      → ((p : Person) → j ≡ k → o ≡ some p → Moves env k c (standing p) (standing (f p)))
      → o' ≡ (if j == k then on_found f o else o)
      → Relates env k c o o'
  acted-Relates c j k f o o' moves e = elim (Bool-cases (j == k)) [
    | inr n ↦ same-Relates c k o o' (ground arith)
    | inl t ↦ under (ground arith) o moves (ground arith)
  ]
    where
      under :
          j ≡ k
          → (o : Option Person)
          → ((p : Person) → j ≡ k → o ≡ some p → Moves env k c (standing p) (standing (f p)))
          → o' ≡ on_found f o
          → Relates env k c o o'
      under here none moves e = subst (Relates env k c none) (sym e) tt
      under here (some p) moves e = subst (Relates env k c (some p)) (sym e) (moves p here refl)

  -- A call changes the user under one identifier by a move, or nobody.
  abbrev pub Does : IdentityCall → IdentityState → IdentityState → Type 0
  Does c s s' =
      (s'.persons ≡ s.persons)
      ⊎ ((j : Text) × ((f : Person → Person) × (IsMove c j s f × Acts j f s s')))

  Does-Relates :
      (c : IdentityCall) (k : Text) (s s' : IdentityState)
      → Does c s s'
      → Relates env k c (find_person k s) (find_person k s')
  unfolding find_person
  Does-Relates c k s s' (inl same) =
      same-Relates c k (find_person k s) (find_person k s') (ap (find_key Person.id k) same)
  Does-Relates c k s s' (inr (j, (f, (moves, (acts, ids))))) =
      acted-Relates c j k f (find_person k s) (find_person k s')
        (λ p here e.
          subst (λ i. Moves env i c (standing p) (standing (f p))) here
            (moves p (ap (λ i. find_person i s) here ∙ e)))
        (acts k)

  Does-HasUniqueIds :
      (c : IdentityCall) (s s' : IdentityState) → Does c s s' → HasUniqueIds s → HasUniqueIds s'
  Does-HasUniqueIds c s s' (inl same) unique k = subst (λ l. id_count k l ≤ 1) (sym same) (unique k)
  Does-HasUniqueIds c s s' (inr (j, (f, (moves, (acts, ids))))) unique k =
      subst (λ n. n ≤ 1) (sym (ids k)) (unique k)
