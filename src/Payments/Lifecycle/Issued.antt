-- ===== src/Payments/Lifecycle/Issued.antt =====
-- The readings of the environment only grow, and new requests do not meet an identifier that was
-- issued before: so calls that create requests keep the others.
use kalam_network.Prelude.{
  ℕ, ◌+◌, ◌<◌, ◌≤◌, ◌≡◌, ◌≢◌, refl, Text, Option, none, some, List, [], ◌∷◌, arith, Option-cases,
  ap, inl, inr, Bool,
}
use kalam_network.Exec.{Result, ok, err, after, continue, pure, throw_if, ◌>>=◌}
use kalam_network.Repo.{find_key}
use kalam_network.Repo.Laws.{find_key-save}
use kalam_network.Custody.Units.{Currency}
use kalam_network.Payments.Types.{
  User, PaymentRequest, PaymentIndex, HcsContent, PaymentError, Payments, JwtPayload, State, Env,
}
use kalam_network.Payments.Steps.{
  now, new_id, submit_message, submit_if_topic, save_request, save_payment, record_transaction,
  verify_membership, verify_if_topic, validate_amount, validate_currency, find_request_or_fail,
  auto_expire, expire_request, sanitized,
}
use kalam_network.Payments.Steps.Transfer.{transfer, transfer_frame}
use kalam_network.Payments.Send.{record_send, transfer_and_record, send_payment}
use kalam_network.Payments.Send.Settlement.{
  Sends, send_payment-Sends, guarded, unguarded, found_recipient,
}
use kalam_network.Payments.Requests.{
  create_payment_request, expiry_time, submit_request, conversation_of, fulfill_payment_request,
  decline_payment_request, cancel_payment_request, get_payment_request, expire_pending_requests,
  announce, settle_request, pay_request, has_expired, expire_and_throw, find_payee, account_of,
}
use kalam_network.Payments.Requests.Creation.{Creates, create_payment_request-Creates}
use kalam_network.Payments.Split.{SplitDto, create_requests, create_split_payment}
use kalam_network.Payments.Lifecycle.Kept.{IsKept, same-IsKept}

abbrev Grows : {A : Type 0} → Payments A → Type 0
Grows m = (s : State) → s.readings ≤ (after m s).readings

Grows-bind :
    {A B : Type 0} (m : Payments A) (f : A → Payments B)
    → Grows m
    → ((a : A) → Grows (f a))
    → Grows (m >>= f)
Grows-bind {A} {B} m f hm hf s = go (m s).0 (m s).1 (hm s)
  where
    go :
        (r : Result PaymentError A) (s' : State)
        → s.readings ≤ s'.readings
        → s.readings ≤ (continue r f s').1.readings
    go (ok a) s' h = omega (arith, hf a s')
    go (err e) s' h = h

module _ (env : Env) where
  pub create_readings :
      (user : JwtPayload) (topic : Option Text) (amount : ℕ) (currency : Currency)
      (description : Option Text) (expires_at : Option ℕ) (s : State)
      → s.readings
        ≤ (after
            (create_payment_request env user topic amount currency description expires_at)
            s).readings
  unfolding create_payment_request now new_id submit_message save_request verify_membership
      verify_if_topic validate_amount validate_currency expiry_time submit_request conversation_of
  create_readings user topic amount currency description expires_at s = ground arith

  pub decline_readings :
      (user : JwtPayload) (id : Text) (reason : Option Text) (s : State)
      → s.readings ≤ (after (decline_payment_request env user id reason) s).readings
  unfolding decline_payment_request find_request_or_fail save_request announce submit_message
  decline_readings user id reason s = ground arith

  pub cancel_readings :
      (user : JwtPayload) (id : Text) (s : State)
      → s.readings ≤ (after (cancel_payment_request env user id) s).readings
  unfolding cancel_payment_request find_request_or_fail save_request announce submit_message
  cancel_readings user id s = ground arith

  pub show_readings :
      (id : Text) (s : State) → s.readings ≤ (after (get_payment_request env id) s).readings
  unfolding get_payment_request find_request_or_fail auto_expire expire_request now save_request
  show_readings id s = ground arith

  settle_readings :
      (user : JwtPayload) (q : PaymentRequest) (payee : Text) (topic : Option Text) (tx_id : Text)
      (s : State)
      → s.readings ≤ (after (settle_request env user q payee topic tx_id) s).readings
  unfolding settle_request now new_id submit_message submit_if_topic save_request save_payment
      record_transaction
  settle_readings user q payee topic tx_id s = ground arith

  record_readings :
      (user : JwtPayload) (recipient : User) (to : Text) (amount : ℕ) (currency : Currency)
      (topic remark : Option Text) (tx_id : Text) (s : State)
      → s.readings
        ≤ (after (record_send env user recipient to amount currency topic remark tx_id) s).readings
  unfolding record_send now new_id submit_message submit_if_topic save_payment record_transaction
  record_readings user recipient to amount currency topic remark tx_id s = ground arith

  transfer_readings :
      (user_id to : Text) (amount : ℕ) (currency : Currency)
      → Grows (transfer env user_id to amount currency)
  transfer_readings user_id to amount currency s =
      omega (arith, ap (λ z. z.readings) (transfer_frame env user_id to amount currency s))

  pay_readings :
      (user : JwtPayload) (q : PaymentRequest) (payee : Text) (topic : Option Text)
      → Grows (pay_request env user q payee topic)
  unfolding pay_request
  pay_readings user q payee topic =
      Grows-bind _ _ (transfer_readings user.sub payee q.amount q.currency)
        (settle_readings user q payee topic)

  pub fulfill_readings :
      (user : JwtPayload) (id : Text) (topic : Option Text)
      → Grows (fulfill_payment_request env user id topic)
  unfolding fulfill_payment_request find_request_or_fail has_expired now expire_and_throw
      save_request find_payee
  fulfill_readings user id topic s = go (find_key PaymentRequest.id id s.requests) refl
    where
      ticked : State
      ticked = record s { readings = s.readings + 1 }

      go :
          (found : Option PaymentRequest)
          → find_key PaymentRequest.id id s.requests ≡ found
          → s.readings ≤ (after (fulfill_payment_request env user id topic) s).readings
      go none e = ground arith
      go (some q) e =
          elim (Option-cases (account_of (find_key User.id q.requester_user_id s.users))) [
            | inl n ↦ ground arith
            | inr (payee, a) ↦
                ground
                  (arith, pay_readings user q payee topic ticked, pay_readings user q payee topic s)
          ]

  transferred_readings :
      (user : JwtPayload) (recipient : User) (to : Text) (amount : ℕ) (currency : Currency)
      (topic remark : Option Text)
      → Grows (transfer_and_record env user recipient to amount currency topic remark)
  unfolding transfer_and_record
  transferred_readings user recipient to amount currency topic remark =
      Grows-bind _ _ (transfer_readings user.sub to amount currency)
        (record_readings user recipient to amount currency topic remark)

  pub send_readings :
      (user : JwtPayload) (to : Text) (amount : ℕ) (currency : Currency)
      (topic remark : Option Text)
      → Grows (send_payment env user to amount currency topic remark)
  send_readings user to amount currency topic remark s =
      elim (Option-cases (found_recipient env user to amount currency topic remark s)) [
        | inl e ↦
            omega (
              arith,
              ap (λ z. z.readings) (unguarded env user to amount currency topic remark s e).1,
            )
        | inr (recipient, e) ↦
            elim (guarded env user to amount currency topic remark s recipient e) [
              | inr bad ↦ omega (arith, ap (λ z. z.readings) bad.1)
              | inl g ↦ omega (
                arith,
                ap (λ z. z.1.readings) g.1,
                transferred_readings user recipient to amount currency topic (sanitized env remark)
                    s,
              )
            ]
      ]

  pub expire_readings : Grows (expire_pending_requests env)
  unfolding expire_pending_requests now
  expire_readings s = omega arith

-- The state has issued identifier number `i`, and what has become of the request is permitted.
abbrev pub IsTracked : Env → ℕ → PaymentRequest → State → Type 0
IsTracked env i p s = (i < s.readings) × IsKept p (env.uuid i) s.requests

-- The method keeps that, whether it returns or throws.
pub record Tracks {A : Type 0} (env : Env) (i : ℕ) (p : PaymentRequest) (m : Payments A)
    : Type 0 where
  pub at : (s : State) → IsTracked env i p s → IsTracked env i p (after m s)

module _ {env : Env} {i : ℕ} {p : PaymentRequest} where
  Tracks-continue :
      {A B : Type 0} (r : Result PaymentError A) (f : A → Payments B) (s : State)
      → ((a : A) → Tracks env i p (f a))
      → IsTracked env i p s
      → IsTracked env i p (continue r f s).1
  Tracks-continue (ok a) f s hf h = (hf a).at s h
  Tracks-continue (err e) f s hf h = h

  Tracks-bind :
      {A B : Type 0} (m : Payments A) (f : A → Payments B)
      → Tracks env i p m
      → ((a : A) → Tracks env i p (f a))
      → Tracks env i p (m >>= f)
  Tracks-bind m f hm hf = record { at = λ s h. Tracks-continue (m s).0 f (m s).1 hf (hm.at s h) }

  Tracks-pure : {A : Type 0} (a : A) → Tracks env i p (pure a)
  Tracks-pure a = record { at = λ s h. h }

  Tracks-throw_if : (c : Bool) (e : PaymentError) → Tracks env i p (throw_if c e)
  Tracks-throw_if c e = record { at = λ s h. h }

  Tracks-lift : {A : Type 0} (r : Result PaymentError A) → Tracks env i p (λ s. (r, s))
  Tracks-lift r = record { at = λ s h. h }

module _ (env : Env) (i : ℕ) (p : PaymentRequest) where
  pub same-IsTracked :
      (s s' : State)
      → s.readings ≤ s'.readings
      → s'.requests ≡ s.requests
      → IsTracked env i p s
      → IsTracked env i p s'
  same-IsTracked s s' g e h = (omega arith, same-IsKept p (env.uuid i) e h.1)

-- Distinct readings of `uuidv4` give distinct identifiers.
abbrev pub HasDistinctIds : Env → Type 0
HasDistinctIds env = (i j : ℕ) → i ≢ j → env.uuid i ≢ env.uuid j

module _ (env : Env) (distinct : HasDistinctIds env) (i : ℕ) (p : PaymentRequest) where
  created :
      (user : JwtPayload) (amount : ℕ) (currency : Currency) (s : State)
      (r : Result PaymentError PaymentRequest) (s' : State)
      → Creates env user amount currency s r s'
      → IsTracked env i p s
      → IsKept p (env.uuid i) s'.requests
  created user amount currency s (ok q) s' c h =
      rw (c.7, find_key-save PaymentRequest.id (env.uuid i) q s.requests)
        (ground (arith, distinct i s.readings))
  created user amount currency s (err e) s' c h = same-IsKept p (env.uuid i) c h.1

  pub create-Tracks :
      (user : JwtPayload) (topic : Option Text) (amount : ℕ) (currency : Currency)
      (description : Option Text) (expires_at : Option ℕ)
      → Tracks env i p
          (create_payment_request env user topic amount currency description expires_at)
  create-Tracks user topic amount currency description expires_at = record {
    at = λ s h. (
      omega (arith, create_readings env user topic amount currency description expires_at s),
      created user amount currency s _ _
          (create_payment_request-Creates env user topic amount currency description expires_at s)
          h,
    );
  }

  requests-Tracks :
      (user : JwtPayload) (topic : Option Text) (currency : Currency) (description : Option Text)
      (shares : List (Text × ℕ))
      → Tracks env i p (create_requests env user topic currency description shares)
  unfolding create_requests
  requests-Tracks user topic currency description [] = Tracks-pure []
  requests-Tracks user topic currency description ((account, n) ∷ rest) =
      Tracks-bind _ _ (create-Tracks user topic n currency description none) (λ q.
        Tracks-bind _ _ (requests-Tracks user topic currency description rest)
          (λ ids. Tracks-pure _))

  submit-Tracks :
      (topic : Option Text) (content : HcsContent)
      → Tracks env i p (submit_if_topic env topic content)
  unfolding submit_if_topic submit_message
  submit-Tracks topic content = record { at = λ s h. ground arith }

  verify-Tracks :
      (account : Text) (topic : Option Text) → Tracks env i p (verify_if_topic account topic)
  unfolding verify_if_topic verify_membership
  verify-Tracks account topic = record { at = λ s h. ground arith }

  pub split-Tracks :
      (user : JwtPayload) (dto : SplitDto) → Tracks env i p (create_split_payment env user dto)
  unfolding create_split_payment validate_currency validate_amount
  split-Tracks user dto =
      search
        (
          Tracks-bind, Tracks-throw_if, Tracks-pure, Tracks-lift, verify-Tracks, requests-Tracks,
          submit-Tracks,
        )
        depth 12

  send_requests :
      (user : JwtPayload) (to : Text) (amount : ℕ) (currency : Currency)
      (topic remark : Option Text) (s : State) (r : Result PaymentError PaymentIndex) (s' : State)
      → Sends env user to amount currency topic remark s r s'
      → s'.requests ≡ s.requests
  send_requests user to amount currency topic remark s (ok row) s' h = h.5.2.7
  send_requests user to amount currency topic remark s (err e) s' h = h.2

  pub send-Tracks :
      (user : JwtPayload) (to : Text) (amount : ℕ) (currency : Currency)
      (topic remark : Option Text)
      → Tracks env i p (send_payment env user to amount currency topic remark)
  send-Tracks user to amount currency topic remark = record {
    at = λ s h.
        same-IsTracked env i p s (after (send_payment env user to amount currency topic remark) s)
          (send_readings env user to amount currency topic remark s)
          (send_requests user to amount currency topic remark s _ _
            (send_payment-Sends env user to amount currency topic remark s))
          h;
  }
