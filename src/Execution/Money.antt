-- ===== src/Execution/Money.antt =====
-- Money and its rounding (contracts/common.py `Money`, agents/execution/paper_broker_math.py). An
-- amount is a decimal: a coefficient over a power of ten. Products are exact, as Python's are up to
-- the 28 digits of its context.
use native.Mathlib.Nat.{mul-le-mul_left, mul_comm, mul_assoc, pow-succ'}
use trading_agents.Prelude.{
  ap, sym, ◌∙◌, zero, suc, Bool-cases, inl, inr, false, ℕ, ◌+◌, ◌-◌, ◌*◌, ◌/◌, ◌%◌, ◌^◌, ◌≡◌, ◌≤◌,
  ◌<◌, String, Bool, true, arith, ltb, leb, if◌then◌else◌,
}
use trading_agents.Prelude.Int.{ℤ, pos, negsuc, sub_ℕ}

pub record Decimal : Type 0 where
  pub coefficient : ℕ
  pub scale : ℕ

pub record Money : Type 0 where
  pub amount : Decimal
  pub currency : String

pub data Side : Type 0 where
  buy sell : Side

-- `(n / d).quantize(Decimal("1"), rounding=ROUND_HALF_UP)` of a fraction that is not negative.
unfoldable pub round_half_up : ℕ → ℕ → ℕ
round_half_up n d = (2 * n + d) / (2 * d)

-- A fraction to the nearest whole number, with a tie to the even side.
unfoldable pub round_half_even : ℕ → ℕ → ℕ
round_half_even n d =
    if ltb (2 * (n % d)) d
    then n / d
    else if ltb d (2 * (n % d))
    then n / d + 1
    else n / d + (n / d) % 2

-- How often `n` is doubled to reach `d`, at most as often as the fuel allows.
unfoldable pub doublings : ℕ → ℕ → ℕ → ℕ
doublings zero n d = 0
doublings (suc fuel) n d = elim (leb d n) [ true ↦ 0 | false ↦ suc (doublings fuel (2 * n) d) ]

-- Python's `round(n / d)` of ints: the quotient is first the nearest float, a whole number of 53 bits
-- (`mantissa`) over 2 ^ k or times 2 ^ j, with a tie to the even one. A quotient that no float reaches
-- (2 ^ 1024 or more, where Python raises, or below 2 ^ -1022) is not modelled.
unfoldable pub round_quotient : ℕ → ℕ → ℕ
unfolding round_half_even doublings
round_quotient zero d = 0
round_quotient (suc i) d =
    let n = suc i in
    let k = doublings (2 ^ 52 * d) n (2 ^ 52 * d) in
    let j = doublings (n + 1) (2 ^ 53 * d) (n + 1) in
    let mantissa = round_half_even (n * 2 ^ k) (d * 2 ^ j) in
    round_half_even (mantissa * 2 ^ j) (2 ^ k)

unfoldable pub round_ℤ : ℤ → ℕ → ℤ
unfolding round_quotient
round_ℤ (pos n) d = pos (round_quotient n d)
round_ℤ (negsuc n) d = sub_ℕ 0 (round_quotient (n + 1) d)

unfoldable pub money_to_cents : Money → ℕ
unfolding round_half_up
money_to_cents money = round_half_up (money.amount.coefficient * 100) (10 ^ money.amount.scale)

-- Basis points on top of the whole, or off it down to nothing.
unfoldable pub band : Side → ℕ → ℕ
band buy bps = 10000 + bps
band sell bps = 10000 - bps

unfoldable pub paper_price : Money → Side → ℕ → Money
unfolding round_half_up band
paper_price limit_price side slippage_bps = record {
  amount = record {
    coefficient =
        round_half_up (limit_price.amount.coefficient * band side slippage_bps * 100)
          (10 ^ limit_price.amount.scale * 10000);
    scale = 2;
  };
  currency = limit_price.currency;
}

-- Both sides are multiplied out to whole numbers.
abbrev paid : Money → Money → ℕ
paid price reference = price.amount.coefficient * 10 ^ reference.amount.scale * 10000

abbrev allowed : Money → Money → Side → ℕ → ℕ
allowed price reference side bps =
    reference.amount.coefficient * band side bps * 10 ^ price.amount.scale

unfoldable pub within_tolerance : Money → Money → Side → ℕ → Bool
unfolding band
within_tolerance reference execution_price buy tolerance_bps =
    leb (paid execution_price reference) (allowed execution_price reference buy tolerance_bps)
within_tolerance reference execution_price sell tolerance_bps =
    leb (allowed execution_price reference sell tolerance_bps) (paid execution_price reference)

-- A price of whole cents.
abbrev pub cents : ℕ → String → Money
cents n currency = record { amount = record { coefficient = n; scale = 2 }; currency = currency }

whole_cents : (n : ℕ) → round_half_up (n * 10000 * 100) (10 ^ 2 * 10000) ≡ n
unfolding round_half_up
whole_cents n = omega arith

narrowed : (n t : ℕ) → n * (10000 - t) * 100 ≤ n * 100 * 10000
narrowed n t = let less : 10000 - t ≤ 10000 = omega arith in omega (arith, mul-le-mul_left n less)

same_price-within_tolerance :
    (n tolerance_bps : ℕ) (currency : String) (side : Side)
    → within_tolerance (cents n currency) (cents n currency) side tolerance_bps ≡ true
unfolding within_tolerance
same_price-within_tolerance n tolerance_bps currency buy = ground arith
same_price-within_tolerance n tolerance_bps currency sell = ground (arith, narrowed n tolerance_bps)

zero_slippage :
    (n : ℕ) (currency : String) (side : Side)
    → paper_price (cents n currency) side 0 ≡ cents n currency
unfolding paper_price
zero_slippage n currency buy = cc (whole_cents n)
zero_slippage n currency sell = cc (whole_cents n)

-- Without slippage a limit of whole cents is the paper price itself, it is inside any band, and it
-- counts as its cents.
pub paper_price_exact :
    (n tolerance_bps : ℕ) (currency : String) (side : Side)
    → let limit = cents n currency in
      (paper_price limit side 0 ≡ limit)
      × (within_tolerance limit (paper_price limit side 0) side tolerance_bps ≡ true)
      × (money_to_cents limit ≡ n)
unfolding money_to_cents
paper_price_exact n tolerance_bps currency side = (
  zero_slippage n currency side,
  rw (zero_slippage n currency side) (same_price-within_tolerance n tolerance_bps currency side),
  omega arith,
)

doubled : (n m : ℕ) → 2 * n * 2 ^ m ≡ n * 2 ^ suc m
doubled n m =
    ap (λ x. x * 2 ^ m) (mul_comm 2 n)
    ∙ (mul_assoc n 2 (2 ^ m) ∙ ap (λ x. n * x) (sym (pow-succ' 2 m)))

-- Fuel of the target is enough: what is doubled that often has reached it.
pub doublings_lem : (fuel n d : ℕ) → 0 < n → d ≤ n + fuel → d ≤ n * 2 ^ doublings fuel n d
unfolding doublings
doublings_lem zero n d some_ enough = omega arith
doublings_lem (suc fuel) n d some_ enough = elim (Bool-cases (leb d n)) [
  | inl there ↦ ground (arith, there)
  | inr short ↦
      let rest = doublings_lem fuel (2 * n) d (omega arith) (omega arith) in
      rw (short, doublings) (omega (arith, rest, doubled n (doublings fuel (2 * n) d)))
]
