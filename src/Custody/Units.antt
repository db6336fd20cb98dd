-- ===== src/Custody/Units.antt =====
-- Amounts and currencies. An amount is a JavaScript number of tokens; here it is a whole number of
-- hundred-millionths, the scale of the decimal(18, 8) columns that store it, and `Math.round` is
-- exact. packages/api/src/modules/payments/constants/payment.constants.ts
use kalam_network.Prelude.{
  ℕ, ◌+◌, ◌*◌, ◌/◌, ◌^◌, ◌≤◌, ◌≡◌, Text, Bool, true, false, ◌==◌, arith, if◌then◌else◌,
}

-- The currencies that the source names, and any other text.
pub data Currency : Type 0 where
  tmusd hbar usdc : Currency
  other : Text → Currency

unfoldable pub currency_eq : Currency → Currency → Bool
currency_eq tmusd tmusd = true
currency_eq hbar hbar = true
currency_eq usdc usdc = true
currency_eq (other a) (other b) = a == b
currency_eq a b = false

-- One token.
abbrev pub token : ℕ
token = 100_000_000

-- A hundredth of a token.
abbrev pub cent : ℕ
cent = 1_000_000

-- Math.round (a / b), which rounds a half upwards.
unfoldable pub round_div : ℕ → ℕ → ℕ
round_div a b = (2 * a + b) / (2 * b)

-- TOKEN_DECIMALS[currency] ?? 0
token_decimals : Currency → ℕ
token_decimals tmusd = 2
token_decimals usdc = 6
token_decimals c = 0

scale_units : ℕ → ℕ → ℕ
unfolding round_div
scale_units decimals amount =
    if decimals == 0 then amount else round_div (amount * 10 ^ decimals) token

-- `toSmallestUnits`. Without decimals the amount itself is sent, as a decimal text: the number here
-- is then still in hundred-millionths.
pub to_smallest_units : ℕ → Currency → ℕ
unfolding scale_units token_decimals
to_smallest_units amount c = scale_units (token_decimals c) amount

-- A transfer of TMUSD moves the whole number of cents that is nearest to the amount: at most half a
-- cent less than the amount, and at most half a cent more.
pub to_smallest_units_near :
    (amount : ℕ)
    → (2 * amount ≤ 2 * (to_smallest_units amount tmusd * cent) + cent)
      × (2 * (to_smallest_units amount tmusd * cent) ≤ 2 * amount + cent)
unfolding to_smallest_units
to_smallest_units_near amount = omega arith

-- An amount of whole cents is sent exactly.
pub to_smallest_units_cents : (n : ℕ) → to_smallest_units (n * cent) tmusd ≡ n
unfolding to_smallest_units
to_smallest_units_cents n = omega arith
