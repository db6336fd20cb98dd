-- ===== src/Payments/Lifecycle/History.antt =====
-- What a sequence of calls can do to a payment request.
use mathlib.Core.Path.{subst}
use kalam_network.Prelude.{
  ℕ, ◌<◌, ◌≤◌, ◌+◌, ◌≡◌, ◌≢◌, ◌⊎◌, Text, Option, none, some, List, [], ◌∷◌, true, arith, sym, ◌∙◌,
  refl, ap, ◌==◌,
}
use kalam_network.Exec.{Result, ok}
use kalam_network.Repo.{find_key, save}
use kalam_network.Repo.Laws.{find_key-save, find_one_sound}
use kalam_network.Custody.{CustodyState}
use kalam_network.Payments.Types.{
  User, pending, cancelled, status_eq, PaymentRequest, JwtPayload, State, Env, PaymentError,
}
use kalam_network.Payments.Steps.{now, find_request_or_fail}
use kalam_network.Payments.Steps.Transfer.{transfer, Transfers, HasPosted, transfer-Transfers}
use kalam_network.Payments.Requests.{
  fulfill_payment_request, has_expired, find_payee, account_of, pay_request, settle_request,
}
use kalam_network.Payments.Requests.Outcomes.{settled, settle_request_lem}
use kalam_network.Payments.Requests.Settlement.{HasRecorded, settle_request-HasRecorded}
use kalam_network.Payments.Lifecycle.{
  Call, sends, requests, splits, fulfills, declines, cancels, shows, expires, step, run, is_final,
}
use kalam_network.Payments.Lifecycle.Kept.{
  Evolves-refl, Continues, decline-IsKept, cancel-IsKept, show-IsKept, fulfill-IsKept,
  expire-IsKept,
}
use kalam_network.Payments.Lifecycle.Issued.{
  IsTracked, HasDistinctIds, create-Tracks, split-Tracks, send-Tracks, decline_readings,
  cancel_readings, show_readings, fulfill_readings, expire_readings,
}

module _ (env : Env) (distinct : HasDistinctIds env) (i : ℕ) (p : PaymentRequest) where
  step-IsTracked : (c : Call) (s : State) → IsTracked env i p s → IsTracked env i p (step env c s)
  unfolding step
  step-IsTracked (sends user to amount currency topic remark) s h =
      (send-Tracks env distinct i p user to amount currency topic remark).at s h
  step-IsTracked (requests user topic amount currency description expires_at) s h =
      (create-Tracks env distinct i p user topic amount currency description expires_at).at s h
  step-IsTracked (splits user dto) s h = (split-Tracks env distinct i p user dto).at s h
  step-IsTracked (fulfills user id topic) s h = (
    omega (arith, fulfill_readings env user id topic s),
    fulfill-IsKept env p (env.uuid i) user id topic s h.1,
  )
  step-IsTracked (declines user id reason) s h = (
    omega (arith, decline_readings env user id reason s),
    decline-IsKept env p (env.uuid i) user id reason s h.1,
  )
  step-IsTracked (cancels user id) s h =
      (omega (arith, cancel_readings env user id s), cancel-IsKept env p (env.uuid i) user id s h.1)
  step-IsTracked (shows id) s h =
      (omega (arith, show_readings env id s), show-IsKept env p (env.uuid i) id s h.1)
  step-IsTracked expires s h =
      (omega (arith, expire_readings env s), expire-IsKept env p (env.uuid i) s h.1)

  run-IsTracked :
      (cs : List Call) (s : State) → IsTracked env i p s → IsTracked env i p (run env cs s)
  unfolding run
  run-IsTracked [] s h = h
  run-IsTracked (c ∷ cs) s h = run-IsTracked cs (step env c s) (step-IsTracked c s h)

module _ (env : Env) (distinct : HasDistinctIds env) (cs : List Call) (s : State) (i : ℕ)
    (q : PaymentRequest) where
  -- If distinct readings of `uuidv4` give distinct identifiers, then after any sequence of calls of
  -- the service, by any users and with any answers of the environment, a request that was issued
  -- before is still there, with the same identifier, amount, currency, requester and expiry; a
  -- pending one may have any status, a cancelled one may be cancelled, paid or expired, and a paid,
  -- declined or expired one is unchanged.
  pub request_history :
      i < s.readings
      → find_key PaymentRequest.id (env.uuid i) s.requests ≡ some q
      → Continues q (find_key PaymentRequest.id (env.uuid i) (run env cs s).requests)
  request_history h e =
      (run-IsTracked env distinct i q cs s (h, subst (Continues q) (sym e) (Evolves-refl q))).1

  unchanged :
      (found : Option PaymentRequest)
      → is_final q.status ≡ true
      → Continues q found
      → found ≡ some q
  unchanged none f h = absurd h
  unchanged (some r) f h = ground arith

  -- If distinct readings of `uuidv4` give distinct identifiers, a request that was issued before
  -- and is paid, declined or expired stays as it is, in every field, after any sequence of calls of
  -- the service: no later call pays it again, or changes the transaction that has paid it.
  pub final_request_stays :
      i < s.readings
      → find_key PaymentRequest.id (env.uuid i) s.requests ≡ some q
      → is_final q.status ≡ true
      → find_key PaymentRequest.id (env.uuid i) (run env cs s).requests ≡ some q
  final_request_stays h e f = unchanged _ f (request_history h e)

-- What a payment of the request `q` with the transaction `tx_id` has done: the request is paid,
-- custody has got one transaction, and the payment and both its sides are recorded.
abbrev pub Completes :
    Env
    → JwtPayload
    → Text
    → Option Text
    → State
    → PaymentRequest
    → Text
    → Text
    → ℕ
    → Result PaymentError PaymentRequest × State
    → Type 0
Completes env user id topic s q payee tx_id at (r, s') =
    (r ≡ ok (settled q tx_id at))
    × (s'.requests ≡ save PaymentRequest.id (settled q tx_id at) s.requests)
    × (find_key PaymentRequest.id id s'.requests ≡ some (settled q tx_id at))
    × HasRecorded env user q payee topic tx_id s s'
    × HasPosted s user.sub payee q.amount q.currency s'

module _ (env : Env) (user : JwtPayload) (id : Text) (topic : Option Text) (s : State)
    (q : PaymentRequest) (payee tx_id : Text) (c : CustodyState) where
  -- The state after the custody transfer, which has changed the custody service only.
  abbrev moved : State
  moved = record s { custody = c; readings = s.readings + 1 }

  settles :
      find_key PaymentRequest.id id s.requests ≡ some q
      → (q.status ≡ pending) ⊎ (q.status ≡ cancelled)
      → q.requester_user_id ≢ user.sub
      → env.clock s.readings ≤ q.expires_at
      → account_of (find_key User.id q.requester_user_id s.users) ≡ some payee
      → transfer env user.sub payee q.amount q.currency (record s { readings = s.readings + 1 })
        ≡ (ok tx_id, moved)
      → fulfill_payment_request env user id topic s
        ≡ settle_request env user q payee topic tx_id moved
  unfolding fulfill_payment_request find_request_or_fail status_eq has_expired now find_payee
      pay_request
  settles e st ne late a tr = ground arith

  stored :
      (r : PaymentRequest)
      → find_key PaymentRequest.id id s.requests ≡ some q
      → r.id ≡ q.id
      → find_key PaymentRequest.id id (save PaymentRequest.id r s.requests) ≡ some r
  stored r e same = ground (
    arith,
    find_key-save PaymentRequest.id id r s.requests,
    find_one_sound (λ x. PaymentRequest.id x == id) s.requests q e,
  )

  completes :
      find_key PaymentRequest.id id s.requests ≡ some q
      → HasPosted s user.sub payee q.amount q.currency moved
      → Completes env user id topic s q payee tx_id
          (env.clock (s.readings + 1))
          (settle_request env user q payee topic tx_id moved)
  completes e posted =
      let settling = settle_request_lem env user q payee topic tx_id moved in
      (
        settling.0,
        settling.1,
        (ap (find_key PaymentRequest.id id) settling.1
            ∙ stored (settled q tx_id (env.clock (s.readings + 1))) e refl),
        settle_request-HasRecorded env user q payee topic tx_id moved,
        (posted.0, posted.1, posted.2, posted.3, ap CustodyState.posted settling.2 ∙ posted.4),
      )

-- If a request is pending or cancelled, of another user with a Hedera account, and not past its
-- expiry, and the custody transfer succeeds, then the payment succeeds, the request is saved and
-- found as paid with that transaction, custody has got one transaction over the amount from the
-- vault of the user to that account, and one payment and a transaction for each side are recorded.
-- So a cancelled request can be paid.
pub fulfill_payment_request-Completes :
    (env : Env) (user : JwtPayload) (id : Text) (topic : Option Text) (s : State)
    (q : PaymentRequest) (payee tx_id : Text) (c : CustodyState)
    → find_key PaymentRequest.id id s.requests ≡ some q
    → (q.status ≡ pending) ⊎ (q.status ≡ cancelled)
    → q.requester_user_id ≢ user.sub
    → env.clock s.readings ≤ q.expires_at
    → account_of (find_key User.id q.requester_user_id s.users) ≡ some payee
    → transfer env user.sub payee q.amount q.currency (record s { readings = s.readings + 1 })
      ≡ (ok tx_id, record s { custody = c; readings = s.readings + 1 })
    → Completes env user id topic s q payee tx_id
        (env.clock (s.readings + 1))
        (fulfill_payment_request env user id topic s)
fulfill_payment_request-Completes env user id topic s q payee tx_id c e st ne late a tr =
    subst (Completes env user id topic s q payee tx_id (env.clock (s.readings + 1)))
      (sym (settles env user id topic s q payee tx_id c e st ne late a tr))
      (completes env user id topic s q payee tx_id c e posted)
  where
    posted :
        HasPosted s user.sub payee q.amount q.currency (moved env user id topic s q payee tx_id c)
    posted =
        subst
          (λ z.
            Transfers (record s { readings = s.readings + 1 }) user.sub payee q.amount q.currency
              z.0 z.1)
          tr
          (transfer-Transfers env user.sub payee q.amount q.currency
            (record s { readings = s.readings + 1 }))
