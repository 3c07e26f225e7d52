-- ===== src/Costs/Prices.antt =====
-- `validatePrices`, `ratePerSecond` of costs.ts. A posted price is untyped; a fault is one of the
-- messages.
use devproofai.Base.{
  ℕ, zero, suc, String, Bool, true, false, not, ◌&&◌, ◌||◌, List, [], ◌∷◌, Option, none, some, ◌==◌,
  if◌then◌else◌, includes,
}
use devproofai.Routing.Values.{Scalar, is_one_of, is_amount, is_whole_from}

-- One direction of a token price.
pub data Direction : Type 0 where
  undefined : Direction
  no_object : Direction
  per_tokens : (amount count : Scalar) → Direction

-- A value where a price is expected: `{amount, per}` or `{in?, out?}`.
pub data PostedPrice : Type 0 where
  no_price : PostedPrice
  price : (amount per : Scalar) (input output : Direction) → PostedPrice

pub data PostedLedger : Type 0 where
  no_ledger : PostedLedger
  fields : List (String × PostedPrice) → PostedLedger

pub data PriceFault : Type 0 where
  unknown_kind prices_object : PriceFault
  unknown_ledger ledger_object : String → PriceFault
  not_accepted : (ledger key : String) → PriceFault
  time_object time_amount time_unit : (ledger key : String) → PriceFault
  tokens_object tokens_empty tokens_direction tokens_amount tokens_count :
      (ledger : String) → PriceFault

abbrev price_kinds : List String
price_kinds = "pool" ∷ "deployment" ∷ "external" ∷ "environment" ∷ []

-- `ALLOWED[kind][ledger]`
allowed : String → String → List String
allowed kind ledger =
    if kind == "pool"
    then (if ledger == "real" then "podTime" ∷ [] else [])
    else if kind == "deployment"
    then (if ledger == "real" then [] else "podTime" ∷ "tokens" ∷ [])
    else if kind == "external"
    then "tokens" ∷ []
    else (if ledger == "real" then "podTime" ∷ [] else "sessionTime" ∷ [])

abbrev long_units : List String
long_units = "hour" ∷ "day" ∷ "month" ∷ "year" ∷ []

time_fault : String → String → Bool → PostedPrice → Option PriceFault
time_fault l key minute_ok no_price = some (time_object l key)
time_fault l key minute_ok (price amount per input output) =
    if not (is_amount amount)
    then some (time_amount l key)
    else if not (is_one_of (if minute_ok then "minute" ∷ long_units else long_units) per)
    then some (time_unit l key)
    else none

direction_fault : String → Direction → Option PriceFault
direction_fault l undefined = none
direction_fault l no_object = some (tokens_direction l)
direction_fault l (per_tokens amount count) =
    if not (is_amount amount)
    then some (tokens_amount l)
    else if not (is_whole_from 1 count)
    then some (tokens_count l)
    else none

is_undefined : Direction → Bool
is_undefined undefined = true
is_undefined _ = false

tokens_fault : String → PostedPrice → Option PriceFault
unfolding direction_fault is_undefined
tokens_fault l no_price = some (tokens_object l)
tokens_fault l (price amount per input output) =
    if is_undefined input && is_undefined output
    then some (tokens_empty l)
    else elim (direction_fault l input) [
      | some fault ↦ some fault
      | none ↦ direction_fault l output
    ]

price_fault : String → String → String → PostedPrice → Option PriceFault
unfolding time_fault tokens_fault
price_fault kind l key val =
    if key == "tokens"
    then tokens_fault l val
    else time_fault l key
        ((key == "sessionTime") || ((kind == "environment") && (key == "podTime"))) val

module _ (kind : String) where
  keys_fault : String → List (String × PostedPrice) → Option PriceFault
  unfolding allowed price_fault
  keys_fault l [] = none
  keys_fault l ((key, val) ∷ more) =
      let rest = keys_fault l more in
      if not (includes (allowed kind l) key)
      then some (not_accepted l key)
      else elim (price_fault kind l key val) [ some fault ↦ some fault | none ↦ rest ]

  ledger_fault : String → PostedLedger → Option PriceFault
  unfolding keys_fault
  ledger_fault l no_ledger = some (ledger_object l)
  ledger_fault l (fields entries) = keys_fault l entries

  ledgers_fault : List (String × PostedLedger) → Option PriceFault
  unfolding ledger_fault
  ledgers_fault [] = none
  ledgers_fault ((l, sub) ∷ more) =
      let rest = ledgers_fault more in
      if not ((l == "real") || (l == "billing"))
      then some (unknown_ledger l)
      else elim (ledger_fault l sub) [ some fault ↦ some fault | none ↦ rest ]

-- The posted prices are an object with its entries in order, or `none`.
unfoldable pub validate_prices : String → Option (List (String × PostedLedger)) → Option PriceFault
unfolding ledgers_fault
validate_prices kind raw =
    if not (includes price_kinds kind)
    then some unknown_kind
    else elim raw [ none ↦ some prices_object | some entries ↦ ledgers_fault kind entries ]

-- A stored time price.
pub record TimePrice : Type 0 where
  pub amount : Scalar
  pub per : String

-- `PER_SECONDS[per]`; an unknown unit is 0.
unfoldable pub per_seconds : String → ℕ
per_seconds per =
    if per == "minute"
    then 60
    else if per == "hour"
    then 3600
    else if per == "day"
    then 86_400
    else if per == "month"
    then 2_592_000
    else if per == "year"
    then 31_536_000
    else 0

-- The amount for each `seconds`; `no_rate` is 0.
pub data Rate : Type 0 where
  no_rate : Rate
  rate : (amount : Scalar) (seconds : ℕ) → Rate

unfoldable pub rate_per_second : TimePrice → Rate
unfolding per_seconds
rate_per_second p =
    if not (is_amount p.amount)
    then no_rate
    else elim (per_seconds p.per) [ zero ↦ no_rate | suc n ↦ rate p.amount (suc n) ]
