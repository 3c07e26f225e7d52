-- ===== src/Platform/Limits.antt =====
-- limits.ts: the cap on the size of a session's durable disk. A posted value is an object with the field
-- `maxWorkGb`, missing, or something else.
use devproofai.Base.{ℕ, Option, none, some, if◌then◌else◌, leb}

-- A number that is no integer from 1 on, or no number, is `other`; `numeral n` is a text that reads as n.
pub data Cap : Type 0 where
  undefined : Cap
  integer : ℕ → Cap
  numeral : ℕ → Cap
  other : Cap

pub data PostedLimits : Type 0 where
  missing : PostedLimits
  no_object : PostedLimits
  object : Cap → PostedLimits

abbrev pub default_max_work_gb : ℕ
default_max_work_gb = 2048

at_least_one : ℕ → ℕ
at_least_one n = if leb 1 n then n else default_max_work_gb

-- `Number(v)` reads numerals too.
unfoldable pub normalize_limits : PostedLimits → ℕ
unfolding at_least_one
normalize_limits (object (integer n)) = at_least_one n
normalize_limits (object (numeral n)) = at_least_one n
normalize_limits _ = default_max_work_gb

pub data LimitsFault : Type 0 where
  limits_object bad_cap : LimitsFault

unfoldable pub validate_limits : PostedLimits → Option LimitsFault
validate_limits missing = none
validate_limits no_object = some limits_object
validate_limits (object Cap.undefined) = none
validate_limits (object (integer n)) = if leb 1 n then none else some bad_cap
validate_limits (object (numeral n)) = some bad_cap
validate_limits (object other) = some bad_cap
