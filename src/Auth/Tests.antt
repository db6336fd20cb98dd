-- ===== src/Auth/Tests.antt =====
-- The authentication on concrete inputs.
use kalam_network.Prelude.{
  ℕ, ◌+◌, ◌*◌, ◌==◌, ◌≡◌, ◌≤◌, refl, true, false, none, some, List, [], ◌∷◌, arith, if◌then◌else◌,
}
use kalam_network.Exec.{ok, err, result, after}
use kalam_network.Repo.{find_one, find_key, save, count}
use kalam_network.Auth.Redis.{Dict}
use kalam_network.Auth.Otp.{
  OtpConfig, OtpState, locked, too_many_requests, too_many_attempts, generate_otp, verify_otp,
  count_attempt, lock_out, compare_code,
}
use kalam_network.Auth.Otp.Attempts.{
  Verifies, verify_otp-Verifies, locked_out, attempts_bound, comparisons,
}
use kalam_network.Auth.Users.{Account, active, find_by_email, find_by_id, create, new_account}
use kalam_network.Auth.Service.{
  AuthState, AuthEnv, Claims, RegisterResponse, register, login, verify_and_sign, send_and_answer,
  send_otp, on_otp, claims_of, register_new, roll_back,
}
use kalam_network.Auth.Service.Registration.{Registers, register-Registers, HasUniqueEmails}
use kalam_network.Auth.Service.Sessions.{Signs, verify_and_sign-Signs, login_round_trip}

abbrev config : OtpConfig
config = record {
  ttl_seconds = 300;
  max_attempts = 3;
  cooldown_seconds = 300;
  is_development = false;
}

abbrev no_keys : Dict
no_keys k = none

abbrev fresh_otps : OtpState
fresh_otps = record { otps = no_keys; attempts = no_keys; cooldowns = no_keys }

abbrev ann : Account
ann = record { id = 7; email = some 5; phone = none; hedera_account_id = some 70; status = active }

-- The clock goes on by ten seconds with each reading; a token holds the subject's identifier.
abbrev env : AuthEnv
env = record {
  otp_config = config;
  refresh_secret = some 99;
  clock = λ i. 1000 + 10 * i;
  uuid = λ i. 500 + i;
  drawn = λ i. 234_567;
  delivered = λ i. true;
  sign = λ i c. c.sub + 1000;
  sign_with = λ i secret c. c.sub + secret;
  verify_with = λ i secret token.
      if token == 106
      then some (record { sub = 7; identifier = 5; hedera_account_id = 70 })
      else none;
}

abbrev state : AuthState
state = record { accounts = ann ∷ []; otp = fresh_otps; readings = 0 }

-- A code sent at 1000.
abbrev sent : OtpState
sent = record {
  otps = λ k. if k == 5 then some (record { value = 234_567; expires = some 1300 }) else none;
  attempts = λ k. if k == 5 then some (record { value = 3; expires = some 1400 }) else none;
  cooldowns = no_keys;
}

verify_otp-Verifies_example :
    Verifies config 1010 5 111_111 sent
      (result (verify_otp config 1010 5 111_111) sent)
      (after (verify_otp config 1010 5 111_111) sent)
verify_otp-Verifies_example = verify_otp-Verifies config refl 1010 5 111_111 sent

fourth_attempt : result (verify_otp config 1010 5 111_111) sent ≡ err too_many_attempts
unfolding verify_otp count_attempt lock_out compare_code
fourth_attempt = refl

locked_out_example :
    let s' = after (verify_otp config 1010 5 111_111) sent in
    (verify_otp config 1200 5 234_567 s' ≡ (err locked, s'))
    × (generate_otp config 1200 5 345_678 true s' ≡ (err too_many_requests, s'))
locked_out_example =
    locked_out config refl 1010 1200 5 111_111 234_567 345_678 true sent fourth_attempt
      (omega arith)

abbrev guesses : List (ℕ × ℕ)
guesses = (1, 1) ∷ (1, 2) ∷ (1, 3) ∷ (1, 234_567) ∷ (400, 234_567) ∷ []

attempts_bound_example :
    comparisons config refl 5 1000 guesses
      (after (generate_otp config 1000 5 234_567 true) fresh_otps)
    ≤ 3
attempts_bound_example = attempts_bound config refl 5 1000 234_567 true fresh_otps guesses refl

new_id_is_free : find_key Account.id (env.uuid 0) state.accounts ≡ none
unfolding find_one
new_id_is_free = refl

register-Registers_example :
    Registers env 6 state
      (find_by_email 6 state.accounts)
      (result (register env 6) state)
      (after (register env 6) state)
register-Registers_example = register-Registers env 6 state new_id_is_free

new_user_is_added : (after (register env 6) state).accounts ≡ ann ∷ new_account 500 6 ∷ []
unfolding register register_new roll_back create send_and_answer send_otp on_otp generate_otp
    find_by_email find_one save
new_user_is_added = refl

emails_are_unique : HasUniqueEmails state.accounts
unfolding count
emails_are_unique e = ground arith

ann_is_found : find_by_email 5 state.accounts ≡ some ann
unfolding find_by_email find_one
ann_is_found = refl

abbrev with_code : AuthState
with_code = record state { otp = record sent { attempts = no_keys } }

verify_and_sign-Signs_example :
    Signs env 5 234_567 with_code
      (some ann)
      (some 99)
      (result (verify_and_sign env 5 234_567) with_code)
      (after (verify_and_sign env 5 234_567) with_code)
verify_and_sign-Signs_example =
    verify_and_sign-Signs env refl 5 234_567 with_code (some ann) (some 99) ann_is_found refl

ann_has_the_id : find_by_id 7 state.accounts ≡ some ann
unfolding find_by_id find_one
ann_has_the_id = refl

abbrev payload : Claims
payload = record { sub = 7; identifier = 5; hedera_account_id = 70 }

abbrev answer : RegisterResponse
answer = record { registration_id = 7; expires_at = 1300 }

login_works : result (login env 5) state ≡ ok answer
unfolding login send_and_answer send_otp on_otp generate_otp find_by_email find_one
login_works = refl

login_round_trip_example :
    (answer.registration_id ≡ ann.id)
    × (result (verify_and_sign env 5 234_567) (after (login env 5) state)
        ≡ ok (record { access_token = 1007; refresh_token = 106; status = active; identifier = 5 }))
unfolding claims_of
login_round_trip_example =
    login_round_trip env 5 state ann answer 99 login_works ann_is_found refl refl (omega arith)
      (omega arith) (omega arith)
