-- ===== src/Identity/Moves/Lifecycle.antt =====
-- Any sequence of calls of the identity services.
use mathlib.Core.Path.{subst}
use kalam_network.Prelude.{
  ◌≡◌, refl, Text, is_present, Bool, true, false, ◌||◌, Option, none, some, List, [], ◌∷◌, is_some,
  arith,
}
use kalam_network.Repo.{column_is}
use kalam_network.Identity.{
  UserStatus, registered, pending_wallet, pending_kyc, kyc_submitted, kyc_rejected, active,
  suspended, Person, IdentityState, IdentityEnv, find_person,
}
use kalam_network.Identity.Kyc.{approved, rejected, on_hold, can_submit, is_active_status}
use kalam_network.Identity.Moves.{
  IdentityCall, wallet_call, key_call, backup_call, submit_call, webhook_call, Standing, standing,
  Moves, stays, opens, submits, demo_stops, demo_approves, approves, rejects, holds, onboards,
  Relates, HasUniqueIds, step, run, Does, Does-Relates, Does-HasUniqueIds,
}
use kalam_network.Identity.Moves.Wallets.{
  create_wallet-Does, ensure_encryption_key-Does, store_key_backup-Does,
}
use kalam_network.Identity.Moves.Submissions.{submit_kyc-Does}
use kalam_network.Identity.Moves.Decisions.{handle_webhook-Does}

step-Does :
    (env : IdentityEnv) (c : IdentityCall) (s : IdentityState)
    → HasUniqueIds s
    → Does env c s (step env c s)
unfolding step
step-Does env (wallet_call k) s unique = create_wallet-Does env k s
step-Does env (key_call k force) s unique = ensure_encryption_key-Does env k force s
step-Does env (backup_call k blob) s unique = store_key_backup-Does env k blob s
step-Does env (submit_call k t name) s unique = submit_kyc-Does env k t name s
step-Does env (webhook_call r d) s unique = handle_webhook-Does env r d s unique

-- If no two users have the same identifier, a call of the wallet, KYC or onboarding services, or a
-- callback of the KYC provider, adds and removes no user, and what it does to the status, the
-- account, the KYC request and the decision of a user is one of the moves of the life cycle `Moves`
-- that the call may make.
pub step-Relates :
    (env : IdentityEnv) (c : IdentityCall) (s : IdentityState) (k : Text)
    → HasUniqueIds s
    → Relates env k c (find_person k s) (find_person k (step env c s))
step-Relates env c s k unique = Does-Relates env c k s (step env c s) (step-Does env c s unique)

-- A status that comes after the wallet.
abbrev pub needs_wallet : UserStatus → Bool
needs_wallet pending_kyc = true
needs_wallet kyc_submitted = true
needs_wallet kyc_rejected = true
needs_wallet active = true
needs_wallet registered = false
needs_wallet pending_wallet = false
needs_wallet suspended = false

-- A user whose status comes after the wallet, or with a KYC request, has an account.
abbrev pub IsBacked : Option Person → Type 0
IsBacked none = Unit
IsBacked (some p) =
    (needs_wallet p.status || is_some p.kyc_request_id) ≡ true → is_some p.hedera_account_id ≡ true

abbrev IsBackedStanding : Standing → Type 0
IsBackedStanding x = (needs_wallet x.status || is_some x.request) ≡ true → is_some x.account ≡ true

move-IsBackedStanding :
    (env : IdentityEnv) (k : Text) (c : IdentityCall) (x y : Standing)
    → Moves env k c x y
    → IsBackedStanding x
    → IsBackedStanding y
move-IsBackedStanding env k c x y stays h = h
move-IsBackedStanding env k c x y (opens a absent t) h = λ e. refl
move-IsBackedStanding env k c x y (submits t can has) h = λ e. ground arith
move-IsBackedStanding env k c x y (demo_stops t can has) h = λ e. ground arith
move-IsBackedStanding env k c x y (demo_approves t can has) h = λ e. ground arith
move-IsBackedStanding env k c x y (approves asked first) h = λ e. ground (arith, h)
move-IsBackedStanding env k c x y (rejects asked first) h = λ e. ground (arith, h)
move-IsBackedStanding env k c x y (holds asked first) h = λ e. ground (arith, h)
move-IsBackedStanding env k c x y (onboards asked later has) h = λ e. ground arith

-- The identifiers are unique and the users backed.
abbrev pub IsSoundTable : IdentityState → Type 0
IsSoundTable s = HasUniqueIds s × ((k : Text) → IsBacked (find_person k s))

Relates-IsBacked :
    (env : IdentityEnv) (k : Text) (c : IdentityCall) (o o' : Option Person)
    → Relates env k c o o'
    → IsBacked o
    → IsBacked o'
Relates-IsBacked env k c none none related h = tt
Relates-IsBacked env k c none (some p) related h = absurd related
Relates-IsBacked env k c (some p) none related h = tt
Relates-IsBacked env k c (some p) (some p') related h =
    move-IsBackedStanding env k c (standing p) (standing p') related h

step-IsSoundTable :
    (env : IdentityEnv) (c : IdentityCall) (s : IdentityState)
    → IsSoundTable s
    → IsSoundTable (step env c s)
step-IsSoundTable env c s (unique, backed) = (
  Does-HasUniqueIds env c s (step env c s) (step-Does env c s unique) unique,
  λ k.
      Relates-IsBacked env k c (find_person k s) (find_person k (step env c s))
        (step-Relates env c s k unique) (backed k),
)

-- If no two users have the same identifier, and every user whose status comes after the wallet or
-- who has a KYC request has a Hedera account, then so it is after any sequence of calls and
-- callbacks, with any answers of the environment.
pub run-IsSoundTable :
    (env : IdentityEnv) (cs : List IdentityCall) (s : IdentityState)
    → IsSoundTable s
    → IsSoundTable (run env cs s)
unfolding run
run-IsSoundTable env [] s h = h
run-IsSoundTable env (c ∷ cs) s h =
    run-IsSoundTable env cs (step env c s) (step-IsSoundTable env c s h)

-- A call that may make the user `k` active: the approval of the request of the user, or, without a
-- KYC provider, a submission of the user, which `autoApproveForDemo` approves in any environment.
abbrev pub MayActivate : IdentityEnv → Text → Standing → IdentityCall → Type 0
MayActivate env k x (wallet_call j) = ⊥
MayActivate env k x (key_call j force) = ⊥
MayActivate env k x (backup_call j blob) = ⊥
MayActivate env k x (submit_call j t name) =
    (j ≡ k)
    × ((env.kyc_configured ≡ false)
        × ((can_submit x.status ≡ true) × (is_present x.account ≡ true)))
MayActivate env k x (webhook_call r rejected) = ⊥
MayActivate env k x (webhook_call r on_hold) = ⊥
MayActivate env k x (webhook_call r approved) = column_is x.request r ≡ true

move_activates :
    (env : IdentityEnv) (k : Text) (c : IdentityCall) (x y : Standing)
    → Moves env k c x y
    → is_active_status x.status ≡ false
    → is_active_status y.status ≡ true
    → MayActivate env k x c
move_activates env k c x y stays before now = absurd (ground arith)
move_activates env k c x y (opens a absent t) before now = absurd (ground arith)
move_activates env k c x y (submits t can has) before now = absurd (ground arith)
move_activates env k c x y (demo_stops t can has) before now = absurd (ground arith)
move_activates env k c x y (demo_approves t can has) before now = (refl, (t, (can, has)))
move_activates env k c x y (approves asked first) before now = asked
move_activates env k c x y (rejects asked first) before now = absurd (ground arith)
move_activates env k c x y (holds asked first) before now = absurd (ground arith)
move_activates env k c x y (onboards asked later has) before now = asked

-- If no two users have the same identifier and a call makes a user active who was not, then the
-- call is a callback that approves the KYC request of this user, or, where no KYC provider is
-- configured, a submission of this user, whose status allowed it and who had an account: this in
-- any environment, production included, since the code does not look at it.
pub becomes_active :
    (env : IdentityEnv) (c : IdentityCall) (s : IdentityState) (k : Text) (p p' : Person)
    → HasUniqueIds s
    → find_person k s ≡ some p
    → is_active_status p.status ≡ false
    → find_person k (step env c s) ≡ some p'
    → is_active_status p'.status ≡ true
    → MayActivate env k (standing p) c
becomes_active env c s k p p' unique here before there now =
    let related =
      subst (λ o. Relates env k c o (find_person k (step env c s))) here
        (step-Relates env c s k unique) in
    move_activates env k c (standing p) (standing p')
      (subst (Relates env k c (some p)) there related) before now
