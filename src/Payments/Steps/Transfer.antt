-- ===== src/Payments/Steps/Transfer.antt =====
-- The custody transfer as the payments service makes it.
use kalam_network.Prelude.{
  ℕ, Text, ◌≡◌, refl, ◌⊎◌, inl, inr, none, some, arith, [], ◌∷◌, ◌++◌, Option-cases, sym,
}
use mathlib.Core.Path.{subst}
use kalam_network.Exec.{Result, ok, err, after}
use kalam_network.Repo.{find_key}
use kalam_network.Custody.{CreateBody, Transferred, CustodyState, CustodyError, execute_transfer}
use kalam_network.Custody.Units.{Currency}
use kalam_network.Custody.Polling.{IsBodyOf, Posts, execute_transfer-Posts}
use kalam_network.Payments.Types.{User, PaymentError, execution_failed, State, Env, Payments}
use kalam_network.Payments.Steps.{
  execute_custody_transfer, on_custody, wrap_execution, vault_of, wrapped, custody_result,
}

abbrev pub transfer : Env → Text → Text → ℕ → Currency → Payments Text
transfer env user_id to amount currency =
    wrap_execution (execute_custody_transfer env user_id to amount currency)

-- What a transfer has posted to the custody API, by its result. With success, it is one transaction
-- from the user's vault to the account, over the amount in smallest units. With an error, it is
-- nothing, or one such transaction, whose fate the service does not know.
abbrev pub HasPosted : State → Text → Text → ℕ → Currency → State → Type 0
HasPosted s user_id to amount currency s' =
    (vault : Text) × (b : CreateBody) × (vault_of (find_key User.id user_id s.users) ≡ some vault)
    × IsBodyOf vault to amount currency b
    × (s'.custody.posted ≡ s.custody.posted ++ b ∷ [])

abbrev pub Transfers :
    State → Text → Text → ℕ → Currency → Result PaymentError Text → State → Type 0
Transfers s user_id to amount currency (ok t) s' = HasPosted s user_id to amount currency s'
Transfers s user_id to amount currency (err e) s' =
    (s'.custody.posted ≡ s.custody.posted) ⊎ HasPosted s user_id to amount currency s'

module _ (env : Env) (user_id to : Text) (amount : ℕ) (currency : Currency) (s : State) where
  -- The transfer changes the state of the custody service only.
  pub transfer_frame :
      let s' = after (transfer env user_id to amount currency) s in
      s' ≡ record s { custody = s'.custody }
  unfolding wrap_execution execute_custody_transfer on_custody
  transfer_frame = ground arith

  transfer_result : Result CustodyError Transferred → Result PaymentError Text
  transfer_result (ok t) = ok t.tx_hash
  transfer_result (err e) = err execution_failed

  call : Text → Result CustodyError Transferred × CustodyState
  call vault = execute_transfer env.api vault to amount currency s.custody

  transfer_with_vault :
      (vault : Text)
      → vault_of (find_key User.id user_id s.users) ≡ some vault
      → transfer env user_id to amount currency s
        ≡ (transfer_result (call vault).0, record s { custody = (call vault).1 })
  unfolding wrap_execution execute_custody_transfer on_custody wrapped custody_result
      transfer_result call
  transfer_with_vault vault e = ground arith

  transfer_without_vault :
      vault_of (find_key User.id user_id s.users) ≡ none
      → transfer env user_id to amount currency s ≡ (err execution_failed, s)
  unfolding wrap_execution execute_custody_transfer on_custody wrapped
  transfer_without_vault e = ground arith

  posted :
      (vault : Text) (r : Result CustodyError Transferred) (c : CustodyState)
      → vault_of (find_key User.id user_id s.users) ≡ some vault
      → Posts vault to amount currency s.custody r c
      → Transfers s user_id to amount currency (transfer_result r) (record s { custody = c })
  unfolding transfer_result
  posted vault (ok t) c e (inl (same, bad)) = absurd bad
  posted vault (ok t) c e (inr (b, body, sent, status)) = (vault, b, e, body, sent)
  posted vault (err x) c e (inl (same, bad)) = inl same
  posted vault (err x) c e (inr (b, body, sent, status)) = inr (vault, b, e, body, sent)

  -- A custody transfer of the payments service that succeeds has posted exactly one transaction,
  -- from the vault of the user to the account, over the amount in smallest units. One that fails
  -- has posted nothing, or one such transaction.
  pub transfer-Transfers :
      let (r, s') = transfer env user_id to amount currency s in
      Transfers s user_id to amount currency r s'
  unfolding call
  transfer-Transfers = elim (Option-cases (vault_of (find_key User.id user_id s.users))) [
    | inl e ↦ subst ends (sym (transfer_without_vault e)) (inl refl)
    | inr (vault, e) ↦
        subst ends (sym (transfer_with_vault vault e))
          (posted vault _ _ e (execute_transfer-Posts env.api vault to amount currency s.custody))
  ]
    where
      ends : Result PaymentError Text × State → Type 0
      ends (r, s') = Transfers s user_id to amount currency r s'
