-- ===== src/Routing/Values.antt =====
-- The posted values, as far as the checks of routing-rules.ts look into them.
use Prim.Native.Char.{Char, code}
use devproofai.Base.{
  ℕ, ◌+◌, String, Bool, true, false, not, ◌&&◌, ◌||◌, List, if◌then◌else◌, leb, ltb, nat_eq,
  includes,
}

-- A number of JSON: an integer, a negative integer -(n + 1), or one strictly between `low` and
-- `low + 1`, or between their opposites.
pub data Number : Type 0 where
  whole : ℕ → Number
  minus : ℕ → Number
  between : (negative : Bool) (low : ℕ) → Number

-- A value where a text or a number is expected; `other` is an object, an array, a truth value or null.
pub data Scalar : Type 0 where
  absent : Scalar
  text : String → Scalar
  number : Number → Scalar
  other : Scalar

-- A value where an array is expected.
pub data Items {ℓ} (A : Type ℓ) : Type ℓ where
  missing : Items A
  no_array : Items A
  items : List A → Items A

-- `[…].includes(v)` and `set.has(v)` on texts
abbrev pub is_one_of : List String → Scalar → Bool
is_one_of names (text t) = includes names t
is_one_of names _ = false

-- Number.isInteger(v) && v >= low && v <= high
abbrev pub is_whole_in : ℕ → ℕ → Scalar → Bool
is_whole_in low high (number (whole n)) = leb low n && leb n high
is_whole_in low high _ = false

-- Number.isInteger(v) && v >= low
abbrev pub is_whole_from : ℕ → Scalar → Bool
is_whole_from low (number (whole n)) = leb low n
is_whole_from low _ = false

-- typeof v === "number" && Number.isFinite(v) && v >= 0
abbrev pub is_amount : Scalar → Bool
is_amount (number (whole n)) = true
is_amount (number (between negative low)) = not negative
is_amount _ = false

-- typeof v === "number" && v > 0 && v <= 100
abbrev pub is_percent : Scalar → Bool
is_percent (number (whole n)) = ltb 0 n && leb n 100
is_percent (number (between negative low)) = not negative && ltb low 100
is_percent _ = false

-- UTF-16 code units
pub units : String → ℕ
units String.[] = 0
units (String.◌∷◌ c s) = units s + (if ltb (code c) 65536 then 1 else 2)

is_digit : Char → Char → Char → Bool
is_digit low high c = leb (code low) (code c) && leb (code c) (code high)

hour_ok : Char → Char → Bool
unfolding is_digit
hour_ok a b =
    (is_digit "0" "1" a && is_digit "0" "9" b) || (is_digit "2" "2" a && is_digit "0" "3" b)

-- /^([01]\d|2[0-3]):[0-5]\d$/
unfoldable pub is_clock : String → Bool
unfolding hour_ok is_digit
is_clock (String.◌∷◌ a (String.◌∷◌ b (String.◌∷◌ colon (String.◌∷◌ c (String.◌∷◌ d String.[]))))) =
    hour_ok a b && nat_eq (code colon) 58 && is_digit "0" "5" c && is_digit "0" "9" d
is_clock s = false

-- HHMM.test(v ?? "") of a text; anything else is taken to fail.
abbrev pub is_clock_value : Scalar → Bool
is_clock_value (text t) = is_clock t
is_clock_value _ = false
