-- ===== src/Auth/Otp.antt =====
-- packages/api/src/modules/auth/services/otp.service.ts. A call reads the clock once, in seconds.
-- The code that `randomInt` draws and the fate of the mail are arguments.
pub mod Attempts
use kalam_network.Prelude.{
  ℕ, ◌+◌, ◌*◌, Text, Bool, true, false, ◌&&◌, not, Option, none, some, ltb, ◌==◌, if◌then◌else◌,
}
use kalam_network.Exec.{
  Result, ok, err, Exec, pure, throw, gets, throw_if, modify, when, ◌>>=◌, ◌>>◌,
}
use kalam_network.Auth.Redis.{Dict, get, setex, del, incr, expire, ttl}

pub record OtpConfig : Type 0 where
  pub ttl_seconds : ℕ
  pub max_attempts : ℕ
  pub cooldown_seconds : ℕ
  pub is_development : Bool

-- The keys `otp:`, `otp_attempts:` and `otp_cooldown:` of each identifier.
pub record OtpState : Type 0 where
  pub otps : Dict
  pub attempts : Dict
  pub cooldowns : Dict

pub data OtpError : Type 0 where
  too_many_requests locked too_many_attempts mail_failed : OtpError

-- The code that the development backdoor accepts.
abbrev pub backdoor_code : ℕ
backdoor_code = 123_123

-- `generateOtp`, with the code drawn and whether the mail is sent.
unfoldable pub generate_otp : OtpConfig → ℕ → Text → ℕ → Bool → Exec OtpState OtpError (ℕ × ℕ)
generate_otp c t identifier code is_sent = do
  cooldown_ttl ← gets (λ s. ttl t identifier s.cooldowns)
  throw_if (ltb 0 cooldown_ttl) too_many_requests
  modify (λ s. record s { otps = setex t identifier c.ttl_seconds code s.otps })
  modify (λ s. record s { attempts = del identifier s.attempts })
  throw_if (not is_sent) mail_failed
  pure (code, t + c.ttl_seconds)

-- The count of this attempt; the first one sets the time of expiry.
unfoldable pub count_attempt : OtpConfig → ℕ → Text → Exec OtpState OtpError ℕ
count_attempt c t identifier s =
    let (n, counted) = incr t identifier s.attempts in
    (
      ok n,
      record s { attempts = if n == 1 then expire t identifier c.ttl_seconds counted else counted },
    )

-- The lock after too many attempts.
unfoldable pub lock_out : OtpConfig → ℕ → Text → OtpState → OtpState
lock_out c t identifier s = record {
  otps = del identifier s.otps;
  attempts = del identifier s.attempts;
  cooldowns = setex t identifier c.cooldown_seconds 1 s.cooldowns;
}

-- The comparison with the stored code; a match removes the code and the count.
unfoldable pub compare_code : ℕ → Text → ℕ → Exec OtpState OtpError Bool
compare_code t identifier otp s = elim (get t identifier s.otps) [
  | none ↦ (ok false, s)
  | some stored ↦ if not (stored == otp) then (ok false, s) else (
    ok true,
    record s { otps = del identifier s.otps; attempts = del identifier s.attempts },
  )
]

-- `verifyOtp`
unfoldable pub verify_otp : OtpConfig → ℕ → Text → ℕ → Exec OtpState OtpError Bool
verify_otp c t identifier otp = if c.is_development && otp == backdoor_code then pure true else do
  cooldown_ttl ← gets (λ s. ttl t identifier s.cooldowns)
  throw_if (ltb 0 cooldown_ttl) locked
  n ← count_attempt c t identifier
  when (ltb c.max_attempts n) (do modify (lock_out c t identifier); throw too_many_attempts)
  compare_code t identifier otp
