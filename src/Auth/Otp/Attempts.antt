-- ===== src/Auth/Otp/Attempts.antt =====
-- What one attempt to verify a code does, and how many attempts a code stands.
use kalam_network.Prelude.{
  ℕ, ◌+◌, ◌-◌, ◌≡◌, ◌≢◌, ◌≤◌, ◌<◌, ◌⊎◌, inl, inr, Text, Bool, true, false, Option, none, some, List,
  [], ◌∷◌, if◌then◌else◌, arith, is_some, get_or, Option-cases, refl,
}
use kalam_network.Exec.{Result, ok, err, result, after}
use kalam_network.Auth.Redis.{Entry, Dict, get, ttl, value_of}
use kalam_network.Auth.Otp.{
  OtpConfig, OtpState, OtpError, too_many_requests, locked, too_many_attempts, generate_otp,
  count_attempt, lock_out, compare_code, verify_otp,
}

-- How many attempts have been counted.
abbrev pub tries : ℕ → Text → Dict → ℕ
tries t identifier d = get_or (get t identifier d) 0

-- An attempt in production, by its answer.
abbrev pub Verifies : OtpConfig → ℕ → Text → ℕ → OtpState → Result OtpError Bool → OtpState → Type 0
Verifies c t identifier otp s (ok true) s' =
    (ttl t identifier s.cooldowns ≡ 0)
    × (tries t identifier s.attempts < c.max_attempts)
    × (get t identifier s.otps ≡ some otp)
    × (s'.otps identifier ≡ none)
    × (s'.attempts identifier ≡ none)
    × (s'.cooldowns ≡ s.cooldowns)
Verifies c t identifier otp s (ok false) s' =
    (ttl t identifier s.cooldowns ≡ 0)
    × (tries t identifier s.attempts < c.max_attempts)
    × (get t identifier s.otps ≢ some otp)
    × (s'.otps ≡ s.otps)
    × (value_of (s'.attempts identifier) ≡ some (tries t identifier s.attempts + 1))
    × (s'.cooldowns ≡ s.cooldowns)
Verifies c t identifier otp s (err locked) s' = (0 < ttl t identifier s.cooldowns) × (s' ≡ s)
Verifies c t identifier otp s (err too_many_attempts) s' =
    (ttl t identifier s.cooldowns ≡ 0)
    × (c.max_attempts ≤ tries t identifier s.attempts)
    × (s'.otps identifier ≡ none)
    × (s'.attempts identifier ≡ none)
    × (s'.cooldowns identifier
        ≡ some (record { value = 1; expires = some (t + c.cooldown_seconds) }))
Verifies c t identifier otp s (err e) s' = ⊥

module _ (c : OtpConfig) (production : c.is_development ≡ false) where
  -- An attempt in production, by its answer. It is accepted only if the email is not locked, fewer
  -- than `max_attempts` attempts are counted and the code is the valid one stored, which is then
  -- used up. It is refused only if the code is not the valid one, and is counted. It throws only if
  -- the email is locked, with nothing changed, or the attempts are used up, which removes the code
  -- and locks the email.
  pub verify_otp-Verifies :
      (t : ℕ) (identifier : Text) (otp : ℕ) (s : OtpState)
      → let (r, s') = verify_otp c t identifier otp s in Verifies c t identifier otp s r s'
  unfolding verify_otp count_attempt lock_out compare_code
  verify_otp-Verifies t identifier otp s = ground arith

  -- In production, once an attempt has thrown because the attempts are used up, every attempt, with
  -- any code, and every request for a new code throws and changes nothing until the time of the
  -- lock is over.
  pub locked_out :
      (t t' : ℕ) (identifier : Text) (otp otp' code : ℕ) (is_sent : Bool) (s : OtpState)
      → result (verify_otp c t identifier otp) s ≡ err too_many_attempts
      → t' < t + c.cooldown_seconds
      → let s' = after (verify_otp c t identifier otp) s in
        (verify_otp c t' identifier otp' s' ≡ (err locked, s'))
        × (generate_otp c t' identifier code is_sent s' ≡ (err too_many_requests, s'))
  unfolding verify_otp count_attempt lock_out compare_code generate_otp
  locked_out t t' identifier otp otp' code is_sent s e h = ground arith

  module _ (identifier : Text) where
    -- Whether an attempt is held against a code that is still valid.
    abbrev pub compares : ℕ → ℕ → OtpState → ℕ
    compares t otp s = elim (result (verify_otp c t identifier otp) s) [
      | ok b ↦ if is_some (get t identifier s.otps) then 1 else 0
      | err e ↦ 0
    ]

    -- How many of a series of attempts are: each with the time since the one before, and its code.
    abbrev pub comparisons : ℕ → List (ℕ × ℕ) → OtpState → ℕ
    comparisons t [] s = 0
    comparisons t ((wait, otp) ∷ more) s =
        compares (t + wait) otp s
        + comparisons (t + wait) more (after (verify_otp c (t + wait) identifier otp) s)

    -- With a code that ends at `end`: the count, and when it ends.
    abbrev Counted : ℕ → ℕ → ℕ → ℕ → Option ℕ → Type 0
    Counted t budget end n none = end ≤ t
    Counted t budget end n (some end') = (end ≤ t) ⊎ ((end ≤ end') × (c.max_attempts ≤ n + budget))

    abbrev Held : ℕ → ℕ → ℕ → Option Entry → Type 0
    Held t budget end none = c.max_attempts ≤ budget
    Held t budget end (some a) = Counted t budget end a.value a.expires

    abbrev Ends : ℕ → ℕ → Option Entry → Option ℕ → Type 0
    Ends t budget a none = ⊥
    Ends t budget a (some end) = (end ≤ t + c.ttl_seconds) × Held t budget end a

    -- At time `t`, the code stands at most `budget` more attempts.
    abbrev Stands : ℕ → ℕ → Option Entry → Option Entry → Type 0
    Stands t budget none a = Unit
    Stands t budget (some o) a = Ends t budget a o.expires

    Stands-verify_otp :
        (t wait budget otp : ℕ) (s : OtpState) (o a : Option Entry)
        → s.otps identifier ≡ o
        → s.attempts identifier ≡ a
        → Stands t budget o a
        → let s' = after (verify_otp c (t + wait) identifier otp) s in
          (compares (t + wait) otp s ≤ budget)
          × Stands
              (t + wait)
              (budget - compares (t + wait) otp s)
              (s'.otps identifier)
              (s'.attempts identifier)
    unfolding verify_otp count_attempt lock_out compare_code
    Stands-verify_otp t wait budget otp s none a eo ea h = ground arith
    Stands-verify_otp t wait budget otp s (some o) none eo ea h = elim (Option-cases o.expires) [
      | inl n ↦ ground arith
      | inr (end, n) ↦ ground arith
    ]
    Stands-verify_otp t wait budget otp s (some o) (some a) eo ea h =
        elim (Option-cases o.expires) [
          | inl n ↦ ground arith
          | inr (end, n) ↦ elim (Option-cases a.expires) [
            | inl p ↦ ground arith
            | inr (end', p) ↦ ground arith
          ]
        ]

    comparisons_bound :
        (t budget : ℕ) (more : List (ℕ × ℕ)) (s : OtpState)
        → Stands t budget (s.otps identifier) (s.attempts identifier)
        → comparisons t more s ≤ budget
    comparisons_bound t budget [] s h = omega arith
    comparisons_bound t budget ((wait, otp) ∷ more) s h =
        let (spent, left) = Stands-verify_otp t wait budget otp s _ _ refl refl h in
        let s' = after (verify_otp c (t + wait) identifier otp) s in
        let rest = budget - compares (t + wait) otp s in
        omega (arith, spent, comparisons_bound (t + wait) rest more s' left)

    generate_otp-Stands :
        (t code : ℕ) (is_sent : Bool) (s : OtpState)
        → ttl t identifier s.cooldowns ≡ 0
        → let s' = after (generate_otp c t identifier code is_sent) s in
          Stands t c.max_attempts (s'.otps identifier) (s'.attempts identifier)
    unfolding generate_otp
    generate_otp-Stands t code is_sent s h = ground arith

    -- In production, a one-time password that is generated while its email is not locked is
    -- compared with at most `max_attempts` guesses while it is valid, whatever the guesses and the
    -- times between them.
    pub attempts_bound :
        (t code : ℕ) (is_sent : Bool) (s : OtpState) (more : List (ℕ × ℕ))
        → ttl t identifier s.cooldowns ≡ 0
        → comparisons t more (after (generate_otp c t identifier code is_sent) s) ≤ c.max_attempts
    attempts_bound t code is_sent s more h =
        comparisons_bound t c.max_attempts more _ (generate_otp-Stands t code is_sent s h)
