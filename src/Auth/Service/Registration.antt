-- ===== src/Auth/Service/Registration.antt =====
-- What a registration leaves in the table of users.
use mathlib.Core.Path.{subst}
use kalam_network.Prelude.{
  ◌≡◌, ◌≤◌, inl, inr, refl, sym, Text, Option, none, some, List, [], ◌∷◌, ◌++◌, true, arith,
  is_truthy, Option-cases,
}
use kalam_network.Exec.{Result, ok, err, after}
use kalam_network.Repo.{find_key, count, column_is}
use kalam_network.Repo.Laws.{save_new, delete-save, count-append, count_missing}
use kalam_network.Auth.Users.{Account, pending_wallet, create, find_by_email, delete, new_account}
use kalam_network.Auth.Service.{
  AuthState, AuthEnv, AuthError, RegisterResponse, on_otp, send_otp, send_and_answer, roll_back,
  register_existing, register_new, register,
}

-- How a registration ends. With success, the account is a new one under a new identifier, which
-- is added as the last row, or an unverified one of that email, with the table as it was. With an
-- error, the table is as it was.
abbrev pub Registers :
    AuthEnv
    → Text
    → AuthState
    → Option Account
    → Result AuthError RegisterResponse
    → AuthState
    → Type 0
Registers env email s found (err e) s' = s'.accounts ≡ s.accounts
Registers env email s none (ok a) s' =
    (is_truthy email ≡ true)
    × (a.registration_id ≡ env.uuid s.readings)
    × (s'.accounts ≡ s.accounts ++ new_account a.registration_id email ∷ [])
Registers env email s (some u) (ok a) s' =
    (u.status ≡ pending_wallet) × (a.registration_id ≡ u.id) × (s'.accounts ≡ s.accounts)

module _ (env : AuthEnv) (email : Text) where
  existing-Registers :
      (u : Account) (s : AuthState)
      → let (r, s') = register_existing env u email s in Registers env email s (some u) r s'
  unfolding register_existing send_and_answer send_otp on_otp
  existing-Registers u s = ground arith

  new-Registers :
      (s : AuthState)
      → is_truthy email ≡ true
      → find_key Account.id (env.uuid s.readings) s.accounts ≡ none
      → let (r, s') = register_new env email s in Registers env email s none r s'
  unfolding register_new roll_back create delete send_and_answer send_otp on_otp
  new-Registers s t fresh =
      let added = new_account (env.uuid s.readings) email in
      ground (
        arith,
        save_new Account.id added s.accounts fresh,
        delete-save Account.id added s.accounts fresh,
      )

  -- A registration under an identifier that is new, by its result. If it succeeds, it has added one
  -- account with the email as the last row, unverified, or it answers with the unverified account
  -- of that email and leaves the accounts alone. If it throws, by the mail service too, the
  -- accounts are as they were.
  pub register-Registers :
      (s : AuthState)
      → find_key Account.id (env.uuid s.readings) s.accounts ≡ none
      → let (r, s') = register env email s in
        Registers env email s (find_by_email email s.accounts) r s'
  unfolding register
  register-Registers s fresh = elim (Option-cases (find_by_email email s.accounts)) [
    | inl n ↦ ground (arith, new-Registers s)
    | inr (u, n) ↦ ground (arith, existing-Registers u s)
  ]

-- No two accounts have the same email.
abbrev pub HasUniqueEmails : List Account → Type 0
HasUniqueEmails accounts = (e : Text) → count (λ a. column_is a.email e) accounts ≤ 1

module _ (env : AuthEnv) (email : Text) where
  added_once :
      (accounts : List Account) (id : Text)
      → is_truthy email ≡ true
      → find_by_email email accounts ≡ none
      → HasUniqueEmails accounts
      → HasUniqueEmails (accounts ++ new_account id email ∷ [])
  unfolding find_by_email count
  added_once accounts id t n unique e = ground (
    arith,
    count-append (λ a. column_is a.email e) accounts (new_account id email ∷ []),
    count_missing (λ a. column_is a.email email) accounts,
    unique e,
  )

  keeps_unique :
      (s : AuthState) (found : Option Account) (r : Result AuthError RegisterResponse)
      (s' : AuthState)
      → find_by_email email s.accounts ≡ found
      → HasUniqueEmails s.accounts
      → Registers env email s found r s'
      → HasUniqueEmails s'.accounts
  keeps_unique s found (err e) s' n unique h = subst HasUniqueEmails (sym h) unique
  keeps_unique s (some u) (ok a) s' n unique h = subst HasUniqueEmails (sym h.2) unique
  keeps_unique s none (ok a) s' n unique h =
      subst HasUniqueEmails (sym h.2) (added_once s.accounts a.registration_id h.0 n unique)

  -- A registration under an identifier that is new keeps it so that no two accounts have the same
  -- email.
  pub register-HasUniqueEmails :
      (s : AuthState)
      → find_key Account.id (env.uuid s.readings) s.accounts ≡ none
      → HasUniqueEmails s.accounts
      → HasUniqueEmails (after (register env email) s).accounts
  register-HasUniqueEmails s fresh unique =
      keeps_unique s (find_by_email email s.accounts) (register env email s).0
        (register env email s).1 refl unique (register-Registers env email s fresh)
