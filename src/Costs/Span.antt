-- ===== src/Costs/Span.antt =====
-- The span that one accrual meters: `span` and `quantizeSec` of costs.ts.
use devproofai.Base.{ℕ, ◌+◌, ◌-◌, ◌*◌, ◌/◌, ◌%◌, ◌≤◌, ◌≡◌, Option, none, some, arith, min, max}

pub data AccrualMode : Type 0 where
  tick settle : AccrualMode

-- `GAP_CAP_SEC`, in milliseconds
abbrev pub gap_cap_ms : ℕ
gap_cap_ms = 120_000

-- The later of the watermark and the pod's start.
unfoldable pub span_start : Option ℕ → Option ℕ → Option ℕ
span_start (some w) (some a) = some (max w a)
span_start (some w) none = some w
span_start none anchor = anchor

-- `now` before the start counts as no time.
unfoldable pub raw_ms : ℕ → ℕ → ℕ
raw_ms now from = min (now - from) gap_cap_ms

-- Whole minutes in seconds: a tick rounds down, a settlement up.
unfoldable pub quantize_sec : ℕ → AccrualMode → ℕ
quantize_sec raw tick = raw / 60_000 * 60
quantize_sec raw settle = (raw + 59_999) / 60_000 * 60

pub record IsMetered (now from sec : ℕ) : Type 0 where
  pub capped : sec ≤ 120
  pub whole_minutes : sec % 60 ≡ 0
  pub elapsed : sec * 1000 ≤ (now - from) + 59_999

-- The seconds of one accrual, in either mode, are at most 120 and whole minutes, and exceed the
-- time that has passed since the start of the span by less than a minute.
pub quantize_sec-IsMetered :
    (now from : ℕ) (mode : AccrualMode) → IsMetered now from (quantize_sec (raw_ms now from) mode)
unfolding quantize_sec raw_ms
quantize_sec-IsMetered now from tick = ground arith
quantize_sec-IsMetered now from settle = ground arith

-- A tick never bills time that has not passed.
pub quantize_sec-tick-le : (now from : ℕ) → quantize_sec (raw_ms now from) tick * 1000 ≤ now - from
unfolding quantize_sec raw_ms
quantize_sec-tick-le now from = ground arith
