-- ===== src/Payments/Send/Settlement.antt =====
-- What a payment leaves behind: one transaction at the custody service, one row in the index and
-- two rows in the transactions; and nothing but the custody calls if it fails.
use kalam_network.Prelude.{
  ℕ, Text, ◌≡◌, ◌≢◌, ◌≤◌, ◌+◌, ◌-◌, refl, ◌⊎◌, inl, inr, none, some, Option, arith, Option-cases,
  is_some, true, false, get_or, sym, ap, ◌∙◌, is_present, empty_text,
}
use mathlib.Core.Path.{subst}
use kalam_network.Exec.{Result, ok, err, IsErr}
use kalam_network.Repo.{find_one, save}
use kalam_network.Custody.Units.{Currency, tmusd}
use kalam_network.Payments.Types.{
  send, User, PaymentIndex, Transaction, payment, PaymentError, JwtPayload, State, Env, min_amount,
  max_amount,
}
use kalam_network.Payments.Steps.{
  column_is, now, new_id, submit_message, submit_if_topic, save_payment, record_transaction,
  sender_row, receiver_row, TransactionParams, verify_membership, verify_if_topic, validate_amount,
  validate_currency, sanitized, is_member_of,
}
use kalam_network.Payments.Steps.Transfer.{
  transfer, transfer_frame, HasPosted, Transfers, transfer-Transfers,
}
use kalam_network.Payments.Requests.Creation.{currency_eq_sound}
use kalam_network.Payments.Send.{send_params, record_send, transfer_and_record, send_payment}

-- The two transaction rows of a payment, written when `m` readings had been made.
abbrev pub RecordsBoth : Env → TransactionParams → ℕ → State → State → Type 0
RecordsBoth env p m s s' =
    s'.transactions
    ≡ save Transaction.id (receiver_row p (env.clock m) (env.uuid (m + 2)))
        (save Transaction.id (sender_row p (env.clock m) (env.uuid (m + 1))) s.transactions)

module _ (env : Env) (user : JwtPayload) (recipient : User) (to : Text) (amount : ℕ)
    (currency : Currency) (topic remark : Option Text) (tx_id : Text) (s : State) where
  seq_of : Option ℕ
  seq_of =
      got
        (submit_if_topic {E = PaymentError} env topic
          (payment user.hedera_account_id amount currency to tx_id remark) s).0
    where
      got : Result PaymentError (Option ℕ) → Option ℕ
      got (ok n) = n
      got (err e) = none

  abbrev WritesSend : Result PaymentError PaymentIndex → State → Type 0
  WritesSend (err e) s' = ⊥
  WritesSend (ok row) s' =
      (row.sender_account_id ≡ user.hedera_account_id)
      × (row.recipient_account_id ≡ to)
      × (row.amount ≡ amount)
      × (row.currency ≡ currency)
      × (row.payment_type ≡ send)
      × (row.hts_transaction_id ≡ tx_id)
      × (s'.payments ≡ save PaymentIndex.id row s.payments)
      × RecordsBoth env (send_params user recipient amount currency seq_of remark tx_id)
          (s'.readings - 3) s s'
      × (s'.requests ≡ s.requests)
      × (s'.custody ≡ s.custody)

  record_send-WritesSend :
      let (r, s') = record_send env user recipient to amount currency topic remark tx_id s in
      WritesSend r s'
  unfolding record_send submit_if_topic submit_message now new_id save_payment record_transaction
      seq_of
  record_send-WritesSend = ground arith

-- The account has a row of membership in the conversation of the topic, if one is given; the row
-- may be that of one who has left.
abbrev pub MayUse : Text → Option Text → State → Type 0
MayUse account topic s =
    (is_present topic ≡ false)
    ⊎ (is_some (find_one (is_member_of account (get_or topic empty_text)) s.members) ≡ true)

-- What a payment that has succeeded has done, beyond its guards.
abbrev pub HasPaid :
    Env
    → JwtPayload
    → User
    → Text
    → ℕ
    → Currency
    → Option Text
    → State
    → PaymentIndex
    → State
    → Type 0
HasPaid env user recipient to amount currency remark s row s' =
    (row.sender_account_id ≡ user.hedera_account_id)
    × (row.recipient_account_id ≡ to)
    × (row.amount ≡ amount)
    × (row.currency ≡ currency)
    × (row.payment_type ≡ send)
    × (s'.payments ≡ save PaymentIndex.id row s.payments)
    × ((seq : Option ℕ) × RecordsBoth env
          (send_params user recipient amount currency seq remark row.hts_transaction_id)
          (s'.readings - 3) s s')
    × (s'.requests ≡ s.requests)
    × HasPosted s user.sub to amount currency s'

-- What a payment that has thrown has done: it has written no row and no message.
abbrev pub HasNotPaid : JwtPayload → Text → ℕ → Currency → State → State → Type 0
HasNotPaid user to amount currency s s' =
    (s'.payments ≡ s.payments)
    × (s'.transactions ≡ s.transactions)
    × (s'.requests ≡ s.requests)
    × (s'.messages ≡ s.messages)
    × ((s'.custody.posted ≡ s.custody.posted) ⊎ HasPosted s user.sub to amount currency s')

module _ (env : Env) (user : JwtPayload) (recipient : User) (to : Text) (amount : ℕ)
    (currency : Currency) (topic remark : Option Text) (s : State) where
  abbrev Ends : Result PaymentError PaymentIndex → State → Type 0
  Ends (ok row) s' = HasPaid env user recipient to amount currency remark s row s'
  Ends (err e) s' = HasNotPaid user to amount currency s s'

  run_on :
      (tx_id : Text) (s₁ : State)
      → transfer env user.sub to amount currency s ≡ (ok tx_id, s₁)
      → transfer_and_record env user recipient to amount currency topic remark s
        ≡ record_send env user recipient to amount currency topic remark tx_id s₁
  unfolding transfer_and_record
  run_on tx_id s₁ e = rw e

  run_off :
      (x : PaymentError) (s₁ : State)
      → transfer env user.sub to amount currency s ≡ (err x, s₁)
      → transfer_and_record env user recipient to amount currency topic remark s ≡ (err x, s₁)
  unfolding transfer_and_record
  run_off x s₁ e = rw e

  posted_on :
      (s₁ s' : State)
      → s'.custody ≡ s₁.custody
      → HasPosted s user.sub to amount currency s₁
      → HasPosted s user.sub to amount currency s'
  posted_on s₁ s' e (vault, b, found, body, posted) =
      (vault, b, found, body, ap (λ c. c.posted) e ∙ posted)

  written :
      (tx_id : Text) (s₁ : State) (r : Result PaymentError PaymentIndex) (s' : State)
      → s₁ ≡ record s { custody = s₁.custody }
      → HasPosted s user.sub to amount currency s₁
      → WritesSend env user recipient to amount currency topic remark tx_id s₁ r s'
      → Ends r s'
  written tx_id s₁ (err x) s' frame h w = absurd w
  written tx_id s₁ (ok row) s' frame h w = (
    w.0,
    w.1,
    w.2,
    w.3,
    w.4,
    ground arith,
    (seq_of env user recipient to amount currency topic remark tx_id s₁, ground arith),
    ground arith,
    posted_on s₁ s' w.9 h,
  )

  recorded :
      (r : Result PaymentError Text) (s₁ : State)
      → transfer env user.sub to amount currency s ≡ (r, s₁)
      → s₁ ≡ record s { custody = s₁.custody }
      → Transfers s user.sub to amount currency r s₁
      → let (r', s') = transfer_and_record env user recipient to amount currency topic remark s in
        Ends r' s'
  recorded (ok tx_id) s₁ e frame h =
      subst (λ z. Ends z.0 z.1) (sym (run_on tx_id s₁ e))
        (written tx_id s₁ _ _ frame h
          (record_send-WritesSend env user recipient to amount currency topic remark tx_id s₁))
  recorded (err x) s₁ e frame h = subst (λ z. Ends z.0 z.1) (sym (run_off x s₁ e)) (ground arith)

  transfer_and_record-Ends :
      let (r, s') = transfer_and_record env user recipient to amount currency topic remark s in
      Ends r s'
  transfer_and_record-Ends =
      recorded _ _ refl (transfer_frame env user.sub to amount currency s)
        (transfer-Transfers env user.sub to amount currency s)

-- A payment, by its result. With success, the amount is within the limits and in TMUSD, the
-- recipient is another account of a known user, the user is a member of the conversation if a topic is given, and the payment is posted and recorded. With
-- an error, no row and no message is written.
abbrev pub Sends :
    Env
    → JwtPayload
    → Text
    → ℕ
    → Currency
    → Option Text
    → Option Text
    → State
    → Result PaymentError PaymentIndex
    → State
    → Type 0
Sends env user to amount currency topic remark s (ok row) s' =
    (currency ≡ tmusd)
    × (min_amount ≤ amount)
    × (amount ≤ max_amount)
    × (user.hedera_account_id ≢ to)
    × MayUse user.hedera_account_id topic s
    × ((recipient : User) × (find_one (λ u. column_is u.hedera_account_id to) s.users
          ≡ some recipient)
        × HasPaid env user recipient to amount currency (sanitized env remark) s row s')
Sends env user to amount currency topic remark s (err e) s' =
    HasNotPaid user to amount currency s s'

module _ (env : Env) (user : JwtPayload) (to : Text) (amount : ℕ) (currency : Currency)
    (topic remark : Option Text) (s : State) where
  abbrev pub Passes : Type 0
  Passes =
      (currency ≡ tmusd)
      × (min_amount ≤ amount)
      × (amount ≤ max_amount)
      × (user.hedera_account_id ≢ to)
      × MayUse user.hedera_account_id topic s

  abbrev pub found_recipient : Option User
  found_recipient = find_one (λ u. column_is u.hedera_account_id to) s.users

  pub guarded :
      (recipient : User)
      → found_recipient ≡ some recipient
      → (Passes
          × (send_payment env user to amount currency topic remark s
              ≡ transfer_and_record env user recipient to amount currency topic
                  (sanitized env remark)
                  s))
        ⊎ (IsErr (send_payment env user to amount currency topic remark s).0
            × ((send_payment env user to amount currency topic remark s).1 ≡ s))
  unfolding send_payment verify_membership verify_if_topic validate_amount validate_currency
  guarded recipient e = ground (arith, currency_eq_sound currency)

  pub unguarded :
      found_recipient ≡ none
      → IsErr (send_payment env user to amount currency topic remark s).0
        × ((send_payment env user to amount currency topic remark s).1 ≡ s)
  unfolding send_payment validate_amount validate_currency
  unguarded e = ground arith

  refused :
      (r : Result PaymentError PaymentIndex) (s' : State)
      → IsErr r
      → s' ≡ s
      → Sends env user to amount currency topic remark s r s'
  refused (ok row) s' bad e = absurd bad
  refused (err x) s' bad e = ground arith

  passed :
      (recipient : User) (r : Result PaymentError PaymentIndex) (s' : State)
      → found_recipient ≡ some recipient
      → Passes
      → Ends env user recipient to amount currency topic (sanitized env remark) s r s'
      → Sends env user to amount currency topic remark s r s'
  passed recipient (ok row) s' e g h = (g.0, g.1, g.2, g.3, g.4, (recipient, e, h))
  passed recipient (err x) s' e g h = h

  -- A payment that succeeds is in TMUSD and within the limits, goes to another account, which is
  -- that of a known user, and is made by one who has a row of membership in the conversation if a
  -- topic is given, which may be the row of one who has left; it has posted one custody transaction
  -- from the user's vault over the amount in smallest units, indexed one row, and recorded one row
  -- for the sender and one for the recipient. A payment that throws has written no row and no
  -- message, and has posted nothing or one such custody transaction.
  pub send_payment-Sends :
      let (r, s') = send_payment env user to amount currency topic remark s in
      Sends env user to amount currency topic remark s r s'
  send_payment-Sends = elim (Option-cases found_recipient) [
    | inl e ↦ refused _ _ (unguarded e).0 (unguarded e).1
    | inr (recipient, e) ↦ elim (guarded recipient e) [
      | inr bad ↦ refused _ _ bad.0 bad.1
      | inl g ↦
          subst (λ z. Sends env user to amount currency topic remark s z.0 z.1) (sym g.1)
            (passed recipient _ _ e g.0 (
              transfer_and_record-Ends env user recipient to amount currency topic
                (sanitized env remark) s))
    ]
  ]
