-- ===== src/Auth/Service.antt =====
-- packages/api/src/modules/auth/auth.service.ts: registration, login, the tokens. The clock, `uuidv4`,
-- `randomInt`, the mail service and the signing of tokens are parameters.
pub mod Registration
pub mod Sessions
use kalam_network.Prelude.{
  ℕ, ◌+◌, Text, empty_text, is_truthy, get_or, Bool, true, false, not, Option, none, some, List,
  if◌then◌else◌,
}
use kalam_network.Exec.{
  Result, ok, err, Exec, pure, throw, gets, or_throw, throw_if, modify, ◌>>=◌, ◌>>◌,
}
use kalam_network.Auth.Otp.{OtpConfig, OtpState, OtpError, generate_otp, verify_otp}
use kalam_network.Auth.Users.{
  Account, AccountStatus, pending_wallet, new_account, create, find_by_email, find_by_id, delete,
}

-- `JwtPayload`
pub record Claims : Type 0 where
  pub sub : Text
  pub identifier : Text
  pub hedera_account_id : Text

pub data AuthError : Type 0 where
  bad_request conflict unauthorized not_found : AuthError
  otp_failed : OtpError → AuthError

pub record AuthState : Type 0 where
  pub accounts : List Account
  pub otp : OtpState
  pub readings : ℕ

-- The configuration, and what each reading of the environment answers.
pub record AuthEnv : Type 0 where
  pub otp_config : OtpConfig
  pub refresh_secret : Option Text
  pub clock : ℕ → ℕ
  pub uuid : ℕ → Text
  pub drawn : ℕ → ℕ
  pub delivered : ℕ → Bool
  pub sign : ℕ → Claims → Text
  pub sign_with : ℕ → Text → Claims → Text
  pub verify_with : ℕ → Text → Text → Option Claims

abbrev pub Auth : Type 0 → Type 0
Auth A = Exec AuthState AuthError A

pub record RegisterResponse : Type 0 where
  pub registration_id : Text
  pub expires_at : ℕ

pub record AuthResponse : Type 0 where
  pub access_token : Text
  pub refresh_token : Text
  pub status : AccountStatus
  pub identifier : Text

abbrev pub otp_result : {A : Type 0} → Result OtpError A → Result AuthError A
otp_result (ok a) = ok a
otp_result (err e) = err (otp_failed e)

-- A call of the OTP service, which counts as one reading of the environment.
unfoldable pub on_otp : {A : Type 0} → (ℕ → Exec OtpState OtpError A) → Auth A
on_otp m s =
    let (r, o) = m s.readings s.otp in
    (otp_result r, record s { otp = o; readings = s.readings + 1 })

module _ (env : AuthEnv) where
  -- `otpService.generateOtp`
  unfoldable pub send_otp : Text → Auth (ℕ × ℕ)
  send_otp identifier =
      on_otp
        (λ i. generate_otp env.otp_config (env.clock i) identifier (env.drawn i) (env.delivered i))

  -- `otpService.verifyOtp`
  unfoldable pub check_otp : Text → ℕ → Auth Bool
  check_otp identifier otp = on_otp (λ i. verify_otp env.otp_config (env.clock i) identifier otp)

  unfoldable pub send_and_answer : Account → Text → Auth RegisterResponse
  send_and_answer user email = do
    sent ← send_otp email
    pure (record { registration_id = user.id; expires_at = sent.1 })

  -- The `catch` of a registration: the new user is deleted, and the error thrown on.
  unfoldable pub roll_back : {A : Type 0} → Text → Auth A → Auth A
  roll_back id m s = elim ((m s).0) [
    | ok a ↦ m s
    | err e ↦ (err e, record ((m s).1) { accounts = delete id ((m s).1).accounts })
  ]

  unfoldable pub register_existing : Account → Text → Auth RegisterResponse
  register_existing user email = elim user.status [
    | pending_wallet ↦ send_and_answer user email
    | _ ↦ throw conflict
  ]

  unfoldable pub register_new : Text → Auth RegisterResponse
  register_new email = do
    id ← (λ s. (ok (env.uuid s.readings), record s { readings = s.readings + 1 }))
    let user = new_account id email
    modify (λ s. record s { accounts = create user s.accounts })
    roll_back user.id (send_and_answer user email)

  -- `register`
  unfoldable pub register : Text → Auth RegisterResponse
  register email = do
    throw_if (not (is_truthy email)) bad_request
    existing ← gets (λ s. find_by_email email s.accounts)
    elim existing [ none ↦ register_new email | some user ↦ register_existing user email ]

  -- `login`
  unfoldable pub login : Text → Auth RegisterResponse
  login email = do
    throw_if (not (is_truthy email)) bad_request
    found ← gets (λ s. find_by_email email s.accounts)
    user ← or_throw found not_found
    send_and_answer user email

  unfoldable pub claims_of : Account → Text → Claims
  claims_of user identifier = record {
    sub = user.id;
    identifier = identifier;
    hedera_account_id = get_or user.hedera_account_id empty_text;
  }

  -- `jwt.refreshSecret`, which must not be empty.
  unfoldable pub get_secret : Auth Text
  get_secret s = elim env.refresh_secret [
    | none ↦ (err unauthorized, s)
    | some secret ↦ (if is_truthy secret then ok secret else err unauthorized, s)
  ]

  -- `verifyOtp`
  unfoldable pub verify_and_sign : Text → ℕ → Auth AuthResponse
  verify_and_sign email otp = do
    throw_if (not (is_truthy email)) bad_request
    valid ← check_otp email otp
    throw_if (not valid) unauthorized
    found ← gets (λ s. find_by_email email s.accounts)
    user ← or_throw found unauthorized
    secret ← get_secret
    i ← gets (λ s. s.readings)
    pure (record {
      access_token = env.sign i (claims_of user email);
      refresh_token = env.sign_with i secret (claims_of user email);
      status = user.status;
      identifier = email;
    })

  -- `refreshToken`, which answers with the new access token.
  unfoldable pub refresh_token : Text → Auth Text
  refresh_token token = do
    secret ← get_secret
    i ← gets (λ s. s.readings)
    payload ← or_throw (env.verify_with i secret token) unauthorized
    found ← gets (λ s. find_by_id payload.sub s.accounts)
    user ← or_throw found unauthorized
    pure (env.sign i (claims_of user payload.identifier))
