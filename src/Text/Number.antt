-- ===== src/Text/Number.antt =====
-- What the parsers of numbers return fits its type.
use server_metrics.Base.{
  ℕ, zero, suc, ◌+◌, ◌^◌, ◌<◌, ◌≡◌, Option, none, some, arith, Bytes, IsInt64,
}
use server_metrics.Text.Defs.{bounded, decimal, parse_uint, negated}

pub bounded-lt : (limit : ℕ) (o : Option ℕ) {n : ℕ} → bounded limit o ≡ some n → n < limit
unfolding bounded
bounded-lt limit none h = cc
bounded-lt limit (some m) h = ground arith

pub parse_uint-lt : (s : Bytes) {n : ℕ} → parse_uint s ≡ some n → n < 2 ^ 64
unfolding parse_uint
parse_uint-lt s h = bounded-lt (2 ^ 64) (decimal s) h

negated-IsInt64 : (n : ℕ) → n < 2 ^ 63 + 1 → IsInt64 (negated n)
negated-IsInt64 zero h = omega arith
negated-IsInt64 (suc n) h = omega arith
