-- ===== src/Maintenance/Cron.antt =====
-- `validateCron`, `fieldMatches`, `cronMatches`: five fields of parts `*`, `n`, `n-m`, each with an
-- optional `/step`. A validated field is matched on its parts as they were read.
pub mod Values
use Prim.Native.Char.{Char, code}
use devproofai.Base.{
  ℕ, zero, suc, ◌+◌, ◌-◌, ◌*◌, ◌%◌, String, Bool, true, false, not, ◌&&◌, ◌||◌, List, [], ◌∷◌,
  Option, none, some, ◌==◌, if◌then◌else◌, leb, ltb, nat_eq, any, is_empty, filter,
}
use devproofai.Platform.Keys.{add_char}

split_at : ℕ → String → List String
unfolding add_char
split_at sep String.[] = String.[] ∷ []
split_at sep (String.◌∷◌ c s) =
    let rest = split_at sep s in if nat_eq (code c) sep then String.[] ∷ rest else add_char c rest

-- \s
is_space : Char → Bool
is_space c =
    let n = code c in
    (leb 9 n && leb n 13)
    || (nat_eq n 32
        || (nat_eq n 160
            || (nat_eq n 5760
                || ((leb 8192 n && leb n 8202)
                    || (nat_eq n 8232
                        || (nat_eq n 8233
                            || (nat_eq n 8239
                                || (nat_eq n 8287 || (nat_eq n 12_288 || nat_eq n 65_279)))))))))

trim_start : String → String
unfolding is_space
trim_start String.[] = String.[]
trim_start (String.◌∷◌ c s) = let rest = trim_start s in if is_space c then rest else String.◌∷◌ c s

-- The text up to its last character that is no space.
trim_end : String → String
unfolding is_space
trim_end String.[] = String.[]
trim_end (String.◌∷◌ c s) =
    let rest = trim_end s in if is_space c && is_empty rest then String.[] else String.◌∷◌ c rest

unfoldable pub trim : String → String
unfolding trim_start trim_end
trim s = trim_end (trim_start s)

blank : String → List String
unfolding is_space add_char
blank String.[] = String.[] ∷ []
blank (String.◌∷◌ c s) =
    let rest = blank s in if is_space c then String.[] ∷ rest else add_char c rest

-- expr.trim().split(/\s+/); a blank text gives one empty word there, and none here.
unfoldable pub words : String → List String
unfolding blank
words s = filter (λ w. not (is_empty w)) (blank s)

digits : ℕ → String → Option ℕ
digits n String.[] = some n
digits n (String.◌∷◌ c s) =
    let rest = digits (n * 10 + (code c - 48)) s in
    if leb 48 (code c) && leb (code c) 57 then rest else none

-- \d+
whole_number : String → Option ℕ
unfolding digits
whole_number s = if is_empty s then none else digits 0 s

pub data Range : Type 0 where
  every : Range
  single : ℕ → Range
  between : (low high : ℕ) → Range

pub record Part : Type 0 where
  pub range : Range
  pub step : Option ℕ

pair_range : Option ℕ → Option ℕ → Option Range
pair_range (some a) (some b) = some (Range.between a b)
pair_range none b = none
pair_range (some a) none = none

single_range : Option ℕ → Option Range
single_range none = none
single_range (some a) = some (single a)

read_bounds : List String → Option Range
unfolding pair_range single_range whole_number
read_bounds (a ∷ []) = single_range (whole_number a)
read_bounds (a ∷ b ∷ []) = pair_range (whole_number a) (whole_number b)
read_bounds [] = none
read_bounds (a ∷ b ∷ c ∷ more) = none

read_range : String → Option Range
unfolding split_at read_bounds
read_range s = if s == "*" then some every else read_bounds (split_at 45 s)

with_step : Option Range → Option ℕ → Option Part
with_step none step = none
with_step (some r) none = none
with_step (some r) (some n) = some (record { range = r; step = some n })

plain : Option Range → Option Part
plain none = none
plain (some r) = some (record { range = r; step = none })

read_pieces : List String → Option Part
unfolding with_step plain read_range whole_number
read_pieces (r ∷ []) = plain (read_range r)
read_pieces (r ∷ n ∷ []) = with_step (read_range r) (whole_number n)
read_pieces [] = none
read_pieces (r ∷ n ∷ m ∷ more) = none

-- /^(\*|(\d+)(-(\d+))?)(\/(\d+))?$/
unfoldable pub read_part : String → Option Part
unfolding split_at read_pieces
read_part s = read_pieces (split_at 47 s)

pub data CronFault : Type 0 where
  five_fields : CronFault
  bad_field bad_step out_of_range inverted : (part : String) → CronFault

every_step : Option ℕ → ℕ → Bool
every_step none d = true
every_step (some n) d = leb 1 n && nat_eq (d % n) 0

module _ (low high : ℕ) where
  outside : ℕ → Bool
  outside n = ltb n low || ltb high n

  range_fault : String → Range → Option CronFault
  unfolding outside
  range_fault s every = none
  range_fault s (single a) = if outside a then some (out_of_range s) else none
  range_fault s (Range.between a b) =
      if outside a || outside b
      then some (out_of_range s)
      else if ltb b a
      then some (inverted s)
      else none

  part_fault : String → Option Part → Option CronFault
  unfolding range_fault
  part_fault s none = some (bad_field s)
  part_fault s (some p) =
      if elim p.step [ none ↦ false | some n ↦ ltb n 1 ]
      then some (bad_step s)
      else range_fault s p.range

  parts_fault : List String → Option CronFault
  unfolding part_fault read_part
  parts_fault [] = none
  parts_fault (s ∷ ss) =
      let rest = parts_fault ss in
      elim (part_fault s (read_part s)) [ some fault ↦ some fault | none ↦ rest ]

  -- One value of the field against one part.
  unfoldable pub part_matches : Part → ℕ → Bool
  unfolding every_step
  part_matches p v = elim p.range [
    | every ↦ leb low v && (leb v high && every_step p.step (v - low))
    | single a ↦ elim p.step [
      | none ↦ nat_eq v a
      | some n ↦ leb a v && (leb v high && every_step (some n) (v - a))
    ]
    | Range.between a b ↦ leb a v && (leb v b && every_step p.step (v - a))
  ]

  read_matches : Option Part → ℕ → Bool
  unfolding part_matches
  read_matches none v = false
  read_matches (some p) v = part_matches p v

  unfoldable pub field_matches : String → ℕ → Bool
  unfolding read_matches read_part split_at
  field_matches field v = any (λ s. read_matches (read_part s) v) (split_at 44 field)

first_fault : Option CronFault → Option CronFault → Option CronFault
first_fault none rest = rest
first_fault (some fault) rest = some fault

fields_fault : List String → Option CronFault
unfolding parts_fault first_fault split_at
fields_fault (m ∷ h ∷ d ∷ n ∷ w ∷ []) = first_fault (parts_fault 0 59 (split_at 44 m)) (
    first_fault (parts_fault 0 23 (split_at 44 h)) (
      first_fault (parts_fault 1 31 (split_at 44 d))
        (first_fault (parts_fault 1 12 (split_at 44 n)) (parts_fault 0 7 (split_at 44 w)))))
fields_fault _ = some five_fields

unfoldable pub validate_cron : String → Option CronFault
unfolding fields_fault words
validate_cron expr = fields_fault (words expr)

-- The local time of a check; Sunday is 0.
pub record Moment : Type 0 where
  pub minute : ℕ
  pub hour : ℕ
  pub day : ℕ
  pub month : ℕ
  pub weekday : ℕ

fields_match : List String → Moment → Bool
unfolding field_matches
fields_match (m ∷ h ∷ dom ∷ mon ∷ dow ∷ []) t =
    let day_ok = field_matches 1 31 dom t.day in
    let weekday_ok =
      field_matches 0 7 dow t.weekday || (nat_eq t.weekday 0 && field_matches 0 7 dow 7) in
    field_matches 0 59 m t.minute
    && (field_matches 0 23 h t.hour
        && (field_matches 1 12 mon t.month
            && (if not (dom == "*") && not (dow == "*")
                then day_ok || weekday_ok
                else day_ok && weekday_ok)))
fields_match _ t = false

unfoldable pub cron_matches : String → Moment → Bool
unfolding fields_match validate_cron words
cron_matches expr t = elim (validate_cron expr) [
  | some fault ↦ false
  | none ↦ fields_match (words expr) t
]
