-- ===== src/Payments/Requests/Creation.antt =====
-- What the creation of a payment request does.
use kalam_network.Prelude.{ℕ, Text, ◌≡◌, ◌≤◌, true, Option, arith}
use kalam_network.Exec.{Result, ok, err}
use kalam_network.Custody.Units.{Currency, tmusd, currency_eq}
use kalam_network.Repo.{save}
use kalam_network.Payments.Types.{
  pending, PaymentRequest, PaymentError, JwtPayload, State, Env, min_amount, max_amount,
}
use kalam_network.Payments.Steps.{
  now, new_id, submit_message, save_request, verify_membership, verify_if_topic, validate_amount,
  validate_currency,
}
use kalam_network.Payments.Requests.{
  create_payment_request, expiry_time, submit_request, conversation_of,
}

pub currency_eq_sound : (c : Currency) → currency_eq c tmusd ≡ true → c ≡ tmusd
unfolding currency_eq
currency_eq_sound c h = ground arith

-- A creation that succeeds has saved one pending request under a new identifier, over an amount
-- within the limits in TMUSD, for the calling user. One that throws has written no request.
abbrev pub Creates :
    Env → JwtPayload → ℕ → Currency → State → Result PaymentError PaymentRequest → State → Type 0
Creates env user amount currency s (ok q) s' =
    (q.id ≡ env.uuid s.readings)
    × (q.status ≡ pending)
    × (q.requester_user_id ≡ user.sub)
    × (q.amount ≡ amount)
    × (q.currency ≡ tmusd)
    × (min_amount ≤ amount)
    × (amount ≤ max_amount)
    × (s'.requests ≡ save PaymentRequest.id q s.requests)
Creates env user amount currency s (err e) s' = s'.requests ≡ s.requests

module _ (env : Env) (user : JwtPayload) (topic : Option Text) (amount : ℕ)
    (currency : Currency) where
  -- A creation that succeeds has saved one pending request of the calling user under a new
  -- identifier, in TMUSD and over an amount within the limits. One that throws has written no
  -- request.
  pub create_payment_request-Creates :
      (description : Option Text) (expires_at : Option ℕ) (s : State)
      → let (r, s') =
          create_payment_request env user topic amount currency description expires_at s in
        Creates env user amount currency s r s'
  unfolding create_payment_request now new_id submit_message save_request verify_membership
      verify_if_topic validate_amount validate_currency expiry_time submit_request conversation_of
  create_payment_request-Creates description expires_at s =
      ground (arith, currency_eq_sound currency)
