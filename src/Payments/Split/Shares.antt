-- ===== src/Payments/Split/Shares.antt =====
-- The shares of a split payment, and the requests that it creates.
use native.Mathlib.Nat.{div-add-mod, mod-lt}
use kalam_network.Prelude.{
  ℕ, ◌+◌, ◌*◌, ◌%◌, ◌<◌, ◌≤◌, ◌≡◌, refl, Text, Option, none, List, [], ◌∷◌, arith, ap, ◌∙◌,
}
use kalam_network.Exec.{Result, ok, err, continue, pure, ◌>>=◌}
use kalam_network.Repo.{save}
use kalam_network.Custody.Units.{Currency, cent, round_div}
use kalam_network.Payments.Types.{pending, PaymentRequest, PaymentError, JwtPayload, State, Env}
use kalam_network.Payments.Requests.Creation.{Creates, create_payment_request-Creates}
use kalam_network.Payments.Split.{per_person, create_requests}

-- The rounded quotient is the nearest one.
round_div_near :
    (a b : ℕ)
    → 0 < b
    → (2 * a ≤ 2 * (round_div a b * b) + b) × (2 * (round_div a b * b) ≤ 2 * a + b)
unfolding round_div
round_div_near a b h =
    omega (arith, div-add-mod (2 * a + b) (2 * b), mod-lt (2 * a + b) {m = 2 * b} (omega arith))

-- The share of an equal split among one or more participants is a whole number of cents, and the
-- shares of all participants together differ from the total by at most half a cent for each of
-- them.
pub per_person_near :
    (total n : ℕ)
    → 0 < n
    → (2 * total ≤ 2 * (n * per_person total n) + n * cent)
      × (2 * (n * per_person total n) ≤ 2 * total + n * cent)
      × (per_person total n % cent ≡ 0)
unfolding per_person
per_person_near total n h = omega (arith, round_div_near total (n * cent) (omega arith))

-- The rows that were saved one after the other.
unfoldable pub save_all : List PaymentRequest → List PaymentRequest → List PaymentRequest
save_all [] rows = rows
save_all (q ∷ qs) rows = save_all qs (save PaymentRequest.id q rows)

-- The requests of the participants, as they were created.
abbrev pub AreRequests : JwtPayload → List (Text × ℕ) → List Text → List PaymentRequest → Type 0
AreRequests user [] [] [] = Unit
AreRequests user ((account, n) ∷ shares) (id ∷ ids) (q ∷ qs) =
    (q.id ≡ id)
    × (q.amount ≡ n)
    × (q.status ≡ pending)
    × (q.requester_user_id ≡ user.sub)
    × AreRequests user shares ids qs
AreRequests user shares ids qs = ⊥

-- How the loop over the participants ends: it has saved one pending request of the caller for each
-- participant, over that participant's share, in order, if it returns.
abbrev pub CreatesAll :
    JwtPayload → List (Text × ℕ) → State → Result PaymentError (List Text) → State → Type 0
CreatesAll user shares s (ok ids) s' =
    (qs : List PaymentRequest) × AreRequests user shares ids qs
    × (s'.requests ≡ save_all qs s.requests)
CreatesAll user shares s (err e) s' = Unit

module _ (env : Env) (user : JwtPayload) (topic : Option Text) (currency : Currency)
    (description : Option Text) where
  consed :
      (account : Text) (n : ℕ) (rest : List (Text × ℕ)) (s s₁ : State) (q : PaymentRequest)
      (r : Result PaymentError (List Text)) (s' : State)
      → Creates env user n currency s (ok q) s₁
      → CreatesAll user rest s₁ r s'
      → let z = continue r (λ ids. pure (q.id ∷ ids)) s' in
        CreatesAll user ((account, n) ∷ rest) s z.0 z.1
  unfolding save_all
  consed account n rest s s₁ q (ok ids) s' c (qs, are, saved) =
      (q ∷ qs, (refl, c.3, c.1, c.2, are), saved ∙ ap (save_all qs) c.7)
  consed account n rest s s₁ q (err e) s' c h = tt

  first :
      (account : Text) (n : ℕ) (rest : List (Text × ℕ)) (s : State)
      (r : Result PaymentError PaymentRequest) (s₁ : State)
      → Creates env user n currency s r s₁
      → ((z : State)
          → let y = create_requests env user topic currency description rest z in
            CreatesAll user rest z y.0 y.1)
      → let z =
          continue r
            (λ q.
              create_requests env user topic currency description rest >>= λ ids. pure (q.id ∷ ids))
            s₁ in
        CreatesAll user ((account, n) ∷ rest) s z.0 z.1
  first account n rest s (ok q) s₁ c ih = consed account n rest s s₁ q _ _ c (ih s₁)
  first account n rest s (err e) s₁ c ih = tt

  -- If the loop of a split payment over its participants returns, it has saved one pending request
  -- of the caller for each participant, over that participant's share, in their order, and answers
  -- with the identifiers of these requests.
  pub create_requests-CreatesAll :
      (shares : List (Text × ℕ)) (s : State)
      → let (r, s') = create_requests env user topic currency description shares s in
        CreatesAll user shares s r s'
  unfolding create_requests save_all
  create_requests-CreatesAll [] s = ([], tt, refl)
  create_requests-CreatesAll ((account, n) ∷ rest) s =
      first account n rest s _ _
        (create_payment_request-Creates env user topic n currency description none s)
        (create_requests-CreatesAll rest)
