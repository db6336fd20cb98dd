-- ===== src/Payments/Lifecycle/Kept.antt =====
-- Every call keeps a request that was issued before it, but for a permitted change of status.
use kalam_network.Prelude.{
  ℕ, ◌≡◌, refl, ◌⊎◌, inl, inr, Text, Option, none, some, List, true, false, arith, ◌==◌,
  if◌then◌else◌, Bool-cases, sym, ap,
}
use mathlib.Core.Path.{subst}
use mathlib.Core.Option
use kalam_network.Exec.{Result, ok, err, after}
use kalam_network.Repo.{find_key, save}
use kalam_network.Repo.Laws.{find_key-save, find_one_sound, find_key-update_where}
use kalam_network.Payments.Types.{
  RequestStatus, expired, declined, cancelled, status_eq, PaymentRequest, PaymentError, JwtPayload,
  State, Env,
}
use kalam_network.Payments.Steps.{now}
use kalam_network.Payments.Requests.{
  decline_payment_request, cancel_payment_request, get_payment_request, fulfill_payment_request,
  expire_pending_requests, is_stale,
}
use kalam_network.Payments.Requests.Outcomes.{
  Declines, Cancels, Shows, Fulfills, decline_payment_request-Declines,
  cancel_payment_request-Cancels, get_payment_request-Shows, fulfill_payment_request-Fulfills,
  get_missing, fulfill_missing,
}
use kalam_network.Payments.Lifecycle.{may_become, is_final}

-- What may have become of a request: the amount, the currency, the requester and the expiry are the
-- same, the status has changed in a permitted way, and in a final status nothing has changed.
abbrev pub Evolves : PaymentRequest → PaymentRequest → Type 0
Evolves p q =
    (q.id ≡ p.id)
    × (q.amount ≡ p.amount)
    × (q.currency ≡ p.currency)
    × (q.requester_user_id ≡ p.requester_user_id)
    × (q.expires_at ≡ p.expires_at)
    × (may_become p.status q.status ≡ true)
    × ((q ≡ p) ⊎ (is_final p.status ≡ false))

abbrev pub Continues : PaymentRequest → Option PaymentRequest → Type 0
Continues p none = ⊥
Continues p (some q) = Evolves p q

may_become_trans :
    (a b c : RequestStatus) → may_become a b ≡ true → may_become b c ≡ true → may_become a c ≡ true
unfolding may_become
may_become_trans a b c p q = ground arith

final_stays :
    (a b : RequestStatus) → may_become a b ≡ true → is_final b ≡ false → is_final a ≡ false
unfolding may_become is_final
final_stays a b p q = ground arith

Evolves-trans : (p q r : PaymentRequest) → Evolves p q → Evolves q r → Evolves p r
Evolves-trans p q r f g =
    ground (arith, may_become_trans p.status q.status r.status, final_stays p.status q.status)

pub Evolves-refl : (p : PaymentRequest) → Evolves p p
unfolding may_become
Evolves-refl p = ground arith

-- A save of a request that evolves one of the table.
Continues-save :
    (p q q' : PaymentRequest) (id k : Text) (rows : List PaymentRequest)
    → find_key PaymentRequest.id id rows ≡ some q
    → Evolves q q'
    → Continues p (find_key PaymentRequest.id k rows)
    → Continues p (find_key PaymentRequest.id k (save PaymentRequest.id q' rows))
Continues-save p q q' id k rows e g h = elim (Bool-cases (q'.id == k)) [
  | inr ne ↦ rw (find_key-save PaymentRequest.id k q' rows, ne) h
  | inl eq ↦
      rw (find_key-save PaymentRequest.id k q' rows, eq)
        (Evolves-trans p q q' (subst (Continues p) (here eq) h) g)
]
  where
    here : (q'.id == k) ≡ true → find_key PaymentRequest.id k rows ≡ some q
    here eq = subst (λ j. find_key PaymentRequest.id j rows ≡ some q) (same eq) e
      where
        same : (q'.id == k) ≡ true → id ≡ k
        same eq = ground (arith, find_one_sound (λ r. r.id == id) rows q)

module _ (p : PaymentRequest) (k : Text) where
  abbrev pub IsKept : List PaymentRequest → Type 0
  IsKept rows = Continues p (find_key PaymentRequest.id k rows)

  pub same-IsKept : {rows rows' : List PaymentRequest} → rows' ≡ rows → IsKept rows → IsKept rows'
  same-IsKept e h = subst IsKept (sym e) h

  pub saved-IsKept :
      (rows : List PaymentRequest) {rows' : List PaymentRequest} (q q' : PaymentRequest) (id : Text)
      → find_key PaymentRequest.id id rows ≡ some q
      → Evolves q q'
      → rows' ≡ save PaymentRequest.id q' rows
      → IsKept rows
      → IsKept rows'
  saved-IsKept rows q q' id e g sv h = subst IsKept (sym sv) (Continues-save p q q' id k rows e g h)

module _ (env : Env) (p : PaymentRequest) (k : Text) where
  pub decline-IsKept :
      (user : JwtPayload) (id : Text) (reason : Option Text) (s : State)
      → IsKept p k s.requests
      → IsKept p k (after (decline_payment_request env user id reason) s).requests
  unfolding may_become is_final
  decline-IsKept user id reason s h =
      go (find_key PaymentRequest.id id s.requests) refl
        (decline_payment_request-Declines env user id reason s _ refl)
    where
      go :
          (found : Option PaymentRequest)
          → find_key PaymentRequest.id id s.requests ≡ found
          → Declines user s found (decline_payment_request env user id reason s)
          → IsKept p k (after (decline_payment_request env user id reason) s).requests
      go none e d = same-IsKept p k (ap State.requests d.1) h
      go (some q) e (inl d) =
          saved-IsKept p k s.requests q (record q { status = declined }) id e (ground arith) d.3 h
      go (some q) e (inr d) = same-IsKept p k (ap State.requests d.2) h

  pub cancel-IsKept :
      (user : JwtPayload) (id : Text) (s : State)
      → IsKept p k s.requests
      → IsKept p k (after (cancel_payment_request env user id) s).requests
  unfolding may_become is_final
  cancel-IsKept user id s h =
      go (find_key PaymentRequest.id id s.requests) refl
        (cancel_payment_request-Cancels env user id s _ refl)
    where
      go :
          (found : Option PaymentRequest)
          → find_key PaymentRequest.id id s.requests ≡ found
          → Cancels user s found (cancel_payment_request env user id s)
          → IsKept p k (after (cancel_payment_request env user id) s).requests
      go none e d = same-IsKept p k (ap State.requests d.1) h
      go (some q) e (inl d) =
          saved-IsKept p k s.requests q (record q { status = cancelled }) id e (ground arith) d.3 h
      go (some q) e (inr d) = same-IsKept p k (ap State.requests d.2) h

  pub show-IsKept :
      (id : Text) (s : State)
      → IsKept p k s.requests
      → IsKept p k (after (get_payment_request env id) s).requests
  unfolding may_become is_final
  show-IsKept id s h = go (find_key PaymentRequest.id id s.requests) refl
    where
      shown :
          (q : PaymentRequest)
          → find_key PaymentRequest.id id s.requests ≡ some q
          → Shows env s q (get_payment_request env id s)
          → IsKept p k (after (get_payment_request env id) s).requests
      shown q e (inl d) =
          saved-IsKept p k s.requests q (record q { status = expired }) id e (ground arith) d.3 h
      shown q e (inr d) = same-IsKept p k d.2 h

      go :
          (found : Option PaymentRequest)
          → find_key PaymentRequest.id id s.requests ≡ found
          → IsKept p k (after (get_payment_request env id) s).requests
      go none e = same-IsKept p k (get_missing env id s e) h
      go (some q) e = shown q e (get_payment_request-Shows env id s q e)

  pub fulfill-IsKept :
      (user : JwtPayload) (id : Text) (topic : Option Text) (s : State)
      → IsKept p k s.requests
      → IsKept p k (after (fulfill_payment_request env user id topic) s).requests
  unfolding may_become is_final
  fulfill-IsKept user id topic s h = go (find_key PaymentRequest.id id s.requests) refl
    where
      paid_or_not :
          (q : PaymentRequest) (r : Result PaymentError PaymentRequest) (s' : State)
          → find_key PaymentRequest.id id s.requests ≡ some q
          → Fulfills env user s q r s'
          → IsKept p k s'.requests
      paid_or_not q (ok q') s' e d = saved-IsKept p k s.requests q q' id e (ground arith) d.5 h
      paid_or_not q (err x) s' e (inl d) = same-IsKept p k d h
      paid_or_not q (err x) s' e (inr d) =
          saved-IsKept p k s.requests q (record q { status = expired }) id e (ground arith) d.3 h

      go :
          (found : Option PaymentRequest)
          → find_key PaymentRequest.id id s.requests ≡ found
          → IsKept p k (after (fulfill_payment_request env user id topic) s).requests
      go none e = same-IsKept p k (fulfill_missing env user id topic s e) h
      go (some q) e = paid_or_not q _ _ e (fulfill_payment_request-Fulfills env user id topic s q e)

  pub expire-IsKept :
      (s : State)
      → IsKept p k s.requests
      → IsKept p k (after (expire_pending_requests env) s).requests
  unfolding expire_pending_requests now may_become is_final status_eq
  expire-IsKept s h =
      rw
        (find_key-update_where PaymentRequest.id (is_stale (env.clock s.readings))
          (λ r. record r { status = expired }) (λ r. refl) k s.requests)
        (go (find_key PaymentRequest.id k s.requests) h)
    where
      t : ℕ
      t = env.clock s.readings

      go :
          (found : Option PaymentRequest)
          → Continues p found
          → Continues p
              (Option.map (λ r. if is_stale t r then record r { status = expired } else r) found)
      go none h = h
      go (some q) h =
          Evolves-trans p q (if is_stale t q then record q { status = expired } else q) h
            (ground arith)
