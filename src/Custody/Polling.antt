-- ===== src/Custody/Polling.antt =====
-- The polling loop answers with the first decisive reply, and a transfer posts one transaction.
use kalam_network.Prelude.{
  ℕ, zero, suc, ◌+◌, ◌≤◌, ◌<◌, ◌≡◌, refl, ◌⊎◌, Text, none, some, [], ◌∷◌, ◌++◌, arith, inl, inr,
  Bool-cases,
}
use kalam_network.Exec.{Result, ok, err, result, after, Result-cases}
use kalam_network.Custody.Units.{Currency, to_smallest_units}
use kalam_network.Custody.{
  CustodyError, signing, CustodyApi, create_transaction, CustodyState, CreateBody, Transferred,
  PollData, completed, max_poll_attempts, poll_step, poll_loop, poll_transaction_status,
  create_answer, build_asset_payload, create_and_poll, transfer_body, execute_transfer,
}

-- The replies to the requests from number `n` on are all undecided, `k` of them.
abbrev pub Undecided : CustodyApi → Text → ℕ → ℕ → Type 0
Undecided api tx_id n zero = Unit
Undecided api tx_id n (suc k) =
    (poll_step (api.poll n tx_id) ≡ none) × Undecided api tx_id (n + 1) k

poll_loop_first :
    (api : CustodyApi) (tx_id : Text) (attempts k : ℕ) (s : CustodyState)
    (r : Result CustodyError Transferred)
    → k < attempts
    → Undecided api tx_id s.requests k
    → poll_step (api.poll (s.requests + k) tx_id) ≡ some r
    → poll_loop api tx_id attempts s ≡ (r, record s { requests = s.requests + k + 1 })
unfolding poll_loop
poll_loop_first api tx_id zero k s r h u e = elim h [ ]
poll_loop_first api tx_id (suc attempts) zero s r h u e = ground arith
poll_loop_first api tx_id (suc attempts) (suc k) s r h u e =
    ground (arith, poll_loop_first api tx_id attempts k (record s { requests = s.requests + 1 }) r)

poll_loop_exhausted :
    (api : CustodyApi) (tx_id : Text) (attempts : ℕ) (s : CustodyState)
    → Undecided api tx_id s.requests attempts
    → poll_loop api tx_id attempts s ≡ (err signing, record s { requests = s.requests + attempts })
unfolding poll_loop
poll_loop_exhausted api tx_id zero s u = ground arith
poll_loop_exhausted api tx_id (suc attempts) s u =
    ground (arith, poll_loop_exhausted api tx_id attempts (record s { requests = s.requests + 1 }))

poll_loop_requests :
    (api : CustodyApi) (tx_id : Text) (attempts : ℕ) (s : CustodyState)
    → let s' = after (poll_loop api tx_id attempts) s in
      (s'.requests ≤ s.requests + attempts) × (s'.posted ≡ s.posted)
unfolding poll_loop
poll_loop_requests api tx_id zero s = (omega arith, refl)
poll_loop_requests api tx_id (suc attempts) s =
    ground (arith, poll_loop_requests api tx_id attempts (record s { requests = s.requests + 1 }))

-- The polling ends with the first decisive reply, if one comes within the 30 attempts: it makes no
-- request after that reply, posts nothing, and answers with the result that the reply carries.
pub poll_transaction_status_first :
    (api : CustodyApi) (tx_id : Text) (k : ℕ) (s : CustodyState)
    (r : Result CustodyError Transferred)
    → k < max_poll_attempts
    → Undecided api tx_id s.requests k
    → poll_step (api.poll (s.requests + k) tx_id) ≡ some r
    → poll_transaction_status api tx_id s ≡ (r, record s { requests = s.requests + k + 1 })
unfolding poll_transaction_status
poll_transaction_status_first api tx_id k s r h u e =
    poll_loop_first api tx_id max_poll_attempts k s r h u e

-- If none of the first 30 replies is decisive, the polling makes exactly 30 requests and fails with
-- a signing error.
pub poll_transaction_status_exhausted :
    (api : CustodyApi) (tx_id : Text) (s : CustodyState)
    → Undecided api tx_id s.requests max_poll_attempts
    → poll_transaction_status api tx_id s
      ≡ (err signing, record s { requests = s.requests + max_poll_attempts })
unfolding poll_transaction_status
poll_transaction_status_exhausted api tx_id s u =
    poll_loop_exhausted api tx_id max_poll_attempts s u

poll_step_ok :
    (r : Result CustodyError PollData) (t : Transferred)
    → poll_step r ≡ some (ok t)
    → t.status ≡ completed
unfolding poll_step
poll_step_ok r t e = ground arith

-- A poll that succeeds has seen the status COMPLETED.
poll_loop_completed :
    (api : CustodyApi) (tx_id : Text) (attempts : ℕ) (s : CustodyState) (t : Transferred)
    → result (poll_loop api tx_id attempts) s ≡ ok t
    → t.status ≡ completed
unfolding poll_loop
poll_loop_completed api tx_id zero s t h = cc
poll_loop_completed api tx_id (suc attempts) s t h = ground (
  arith,
  poll_step_ok (api.poll s.requests tx_id) t,
  poll_loop_completed api tx_id attempts (record s { requests = s.requests + 1 }) t,
)

-- The body that a transfer posts.
abbrev pub IsBodyOf : Text → Text → ℕ → Currency → CreateBody → Type 0
IsBodyOf vault_id to amount currency b =
    (b.source_vault_id ≡ vault_id)
    × (b.destination_address ≡ to)
    × (b.amount ≡ to_smallest_units amount currency)

-- A transfer that has come to an end without an error has the status COMPLETED.
abbrev pub IsSettled : Result CustodyError Transferred → Type 0
IsSettled (ok t) = t.status ≡ completed
IsSettled (err e) = Unit

poll_loop-IsSettled :
    (api : CustodyApi) (tx_id : Text) (attempts : ℕ) (s : CustodyState)
    → IsSettled (poll_loop api tx_id attempts s).0
poll_loop-IsSettled api tx_id attempts s = settled _ (poll_loop_completed api tx_id attempts s)
  where
    settled :
        (r : Result CustodyError Transferred)
        → ((t : Transferred) → r ≡ ok t → t.status ≡ completed)
        → IsSettled r
    settled (ok t) h = h t refl
    settled (err e) h = tt

abbrev pub IsError : Result CustodyError Transferred → Type 0
IsError (ok t) = ⊥
IsError (err e) = Unit

create_and_poll_posts :
    (api : CustodyApi) (body : CreateBody) (s : CustodyState)
    → let (r, s') = create_and_poll api body s in (s'.posted ≡ s.posted ++ body ∷ []) × IsSettled r
unfolding create_and_poll create_transaction poll_transaction_status
create_and_poll_posts api body s =
    elim (Result-cases (create_answer (api.create s.requests body))) [
      | inl (tx_id, e) ↦ rw e (
        (poll_loop_requests api tx_id max_poll_attempts (created s)).1,
        poll_loop-IsSettled api tx_id max_poll_attempts (created s),
      )
      | inr (x, e) ↦ rw e (refl, tt)
    ]
  where
    created : CustodyState → CustodyState
    created s = record s { posted = s.posted ++ body ∷ []; requests = s.requests + 1 }

-- How a transfer ends: it posts nothing and fails, or it posts one transaction, from the given vault
-- to the given account over the given amount in smallest units. If it succeeds, it has posted that
-- transaction, and the status that the polling has seen is COMPLETED.
abbrev pub Posts :
    Text
    → Text
    → ℕ
    → Currency
    → CustodyState
    → Result CustodyError Transferred
    → CustodyState
    → Type 0
Posts vault_id to amount currency s r s' =
    ((s'.posted ≡ s.posted) × IsError r)
    ⊎ ((b : CreateBody) × IsBodyOf vault_id to amount currency b
        × (s'.posted ≡ s.posted ++ b ∷ [])
        × IsSettled r)

-- A transfer through the custody API either posts nothing and fails, or posts one transaction, from
-- the given vault to the given account over the given amount in smallest units; if it then
-- succeeds, the status that it reports is COMPLETED.
pub execute_transfer-Posts :
    (api : CustodyApi) (vault_id to : Text) (amount : ℕ) (currency : Currency) (s : CustodyState)
    → let (r, s') = execute_transfer api vault_id to amount currency s in
      Posts vault_id to amount currency s r s'
unfolding execute_transfer transfer_body
execute_transfer-Posts api vault_id to amount currency s = elim (Bool-cases api.configured) [
  | inr e ↦ simp e (inl (refl, tt))
  | inl e ↦ elim (Result-cases (build_asset_payload api currency)) [
    | inr (x, p) ↦ simp (e, p) (inl (refl, tt))
    | inl (asset, p) ↦
        let body : CreateBody = transfer_body vault_id to amount currency asset in
        simp (e, p)
          (inr (
            body,
            (refl, refl, refl),
            (create_and_poll_posts api body s).0,
            (create_and_poll_posts api body s).1,
          ))
  ]
]
