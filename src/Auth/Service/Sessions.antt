-- ===== src/Auth/Service/Sessions.antt =====
-- When a session starts and is renewed.
use kalam_network.Prelude.{
  ℕ, ◌+◌, ◌≡◌, ◌≤◌, ◌<◌, Text, Option, none, some, List, true, false, arith, is_truthy,
}
use kalam_network.Exec.{Result, ok, err, result, after}
use kalam_network.Auth.Redis.{get, ttl}
use kalam_network.Auth.Otp.{generate_otp, verify_otp, count_attempt, lock_out, compare_code}
use kalam_network.Auth.Otp.Attempts.{verify_otp-Verifies}
use kalam_network.Auth.Users.{Account, find_by_email, find_by_id}
use kalam_network.Auth.Service.{
  AuthState, AuthEnv, AuthError, unauthorized, Claims, AuthResponse, RegisterResponse, on_otp,
  send_otp, check_otp, send_and_answer, claims_of, get_secret, verify_and_sign, refresh_token,
  login,
}

-- The session that starts at reading `i`, for the account and with the secret that were found.
abbrev pub Starts : AuthEnv → ℕ → Text → Option Account → Option Text → AuthResponse → Type 0
Starts env i email none secret a = ⊥
Starts env i email (some user) none a = ⊥
Starts env i email (some user) (some secret) a = a ≡ (record {
  access_token = env.sign i (claims_of env user email);
  refresh_token = env.sign_with i secret (claims_of env user email);
  status = user.status;
  identifier = email;
})

-- How a verification ends. With success, the code was the one stored, the email was not locked,
-- the code is used up, and a session of the account of that email starts.
abbrev pub Signs :
    AuthEnv
    → Text
    → ℕ
    → AuthState
    → Option Account
    → Option Text
    → Result AuthError AuthResponse
    → AuthState
    → Type 0
Signs env email otp s found secret (err e) s' = s'.accounts ≡ s.accounts
Signs env email otp s found secret (ok a) s' =
    (get (env.clock s.readings) email s.otp.otps ≡ some otp)
    × (ttl (env.clock s.readings) email s.otp.cooldowns ≡ 0)
    × (s'.otp.otps email ≡ none)
    × (s'.accounts ≡ s.accounts)
    × Starts env (s.readings + 1) email found secret a

module _ (env : AuthEnv) (production : env.otp_config.is_development ≡ false) where
  -- In production, a session starts only with the valid code that is stored for the email, which
  -- was not locked, and only for the account of that email, with both tokens over its identifier
  -- and its Hedera account; the code is then used up. The accounts are not changed, with an error
  -- either.
  pub verify_and_sign-Signs :
      (email : Text) (otp : ℕ) (s : AuthState) (found : Option Account) (secret : Option Text)
      → find_by_email email s.accounts ≡ found
      → env.refresh_secret ≡ secret
      → let (r, s') = verify_and_sign env email otp s in Signs env email otp s found secret r s'
  unfolding verify_and_sign check_otp on_otp get_secret
  verify_and_sign-Signs email otp s none none e e' =
      ground (
        arith,
        verify_otp-Verifies env.otp_config production (env.clock s.readings) email otp s.otp,
      )
  verify_and_sign-Signs email otp s none (some secret) e e' =
      ground (
        arith,
        verify_otp-Verifies env.otp_config production (env.clock s.readings) email otp s.otp,
      )
  verify_and_sign-Signs email otp s (some user) none e e' =
      ground (
        arith,
        verify_otp-Verifies env.otp_config production (env.clock s.readings) email otp s.otp,
      )
  verify_and_sign-Signs email otp s (some user) (some secret) e e' =
      ground (
        arith,
        verify_otp-Verifies env.otp_config production (env.clock s.readings) email otp s.otp,
      )

-- How a renewal ends, by what the environment answers: the secret, the payload of the token, and
-- the account that the payload names.
abbrev pub Renews :
    AuthEnv
    → AuthState
    → Option Text
    → Option Claims
    → Option Account
    → Result AuthError Text
    → Type 0
Renews env s (some secret) (some payload) (some user) (ok t) =
    (is_truthy secret ≡ true) × (t ≡ env.sign s.readings (claims_of env user payload.identifier))
Renews env s (some secret) (some payload) (some user) (err e) =
    (is_truthy secret ≡ false) × (e ≡ unauthorized)
Renews env s secret payload found r = r ≡ err unauthorized

abbrev pub payload_of : AuthEnv → ℕ → Option Text → Text → Option Claims
payload_of env i none token = none
payload_of env i (some secret) token = env.verify_with i secret token

abbrev pub user_of : Option Claims → List Account → Option Account
user_of none accounts = none
user_of (some payload) accounts = find_by_id payload.sub accounts

module _ (env : AuthEnv) where
  -- A renewal changes nothing. It succeeds exactly if a secret is configured, the token verifies
  -- with it and the account that the token names exists, and then signs an access token for that
  -- account with its present Hedera account; otherwise it throws an unauthorized error.
  pub refresh_token-Renews :
      (token : Text) (s : AuthState) (secret : Option Text) (payload : Option Claims)
      (found : Option Account)
      → env.refresh_secret ≡ secret
      → payload_of env s.readings secret token ≡ payload
      → user_of payload s.accounts ≡ found
      → (Renews env s secret payload found (refresh_token env token s).0)
        × ((refresh_token env token s).1 ≡ s)
  unfolding refresh_token get_secret
  refresh_token-Renews token s none payload found e e' e'' = ground arith
  refresh_token-Renews token s (some secret) none found e e' e'' = ground arith
  refresh_token-Renews token s (some secret) (some payload) none e e' e'' = ground arith
  refresh_token-Renews token s (some secret) (some payload) (some user) e e' e'' = ground arith

  -- After a login that succeeds, the code that it drew, sent back at the next reading of the clock,
  -- before it expires, starts a session for the account of that email, if a secret is configured,
  -- `max_attempts` is not zero and the clock has not gone back.
  pub login_round_trip :
      (email : Text) (s : AuthState) (user : Account) (a : RegisterResponse) (secret : Text)
      → result (login env email) s ≡ ok a
      → find_by_email email s.accounts ≡ some user
      → env.refresh_secret ≡ some secret
      → is_truthy secret ≡ true
      → 0 < env.otp_config.max_attempts
      → env.clock s.readings ≤ env.clock (s.readings + 1)
      → env.clock (s.readings + 1) < env.clock s.readings + env.otp_config.ttl_seconds
      → let s' = after (login env email) s in
        let r = result (verify_and_sign env email (env.drawn s.readings)) s' in
        (a.registration_id ≡ user.id)
        × (r
            ≡ ok (record {
              access_token = env.sign (s.readings + 2) (claims_of env user email);
              refresh_token = env.sign_with (s.readings + 2) secret (claims_of env user email);
              status = user.status;
              identifier = email;
            }))
  unfolding login send_and_answer send_otp on_otp generate_otp verify_and_sign check_otp verify_otp
      count_attempt lock_out compare_code get_secret
  login_round_trip email s user a secret h e e' t m c c' = ground arith
