-- ===== src/Agents/Subagents.antt =====
-- `validateSubagents`
use Prim.Native.Char.{code}
use devproofai.Base.{
  ℕ, ◌+◌, String, Bool, true, false, ◌&&◌, ◌||◌, List, [], ◌∷◌, Option, none, some, ◌==◌,
  if◌then◌else◌, leb, ltb, nat_eq, length, includes, is_empty,
}
use devproofai.Store.Rows.{Db}
use devproofai.Store.Sessions.{get_agent}
use devproofai.Routing.Values.{Scalar, text, Items, missing, no_array, items, units}

pub data Entry : Type 0 where
  no_entry : Entry
  entry : (agent_id instructions : Scalar) → Entry

pub data SubagentFault : Type 0 where
  subagents_array too_many_subagents : SubagentFault
  must_be_entry agent_required instructions_required instructions_long self_delegation :
      ℕ → SubagentFault
  duplicate_agent unknown_agent duplicate_name : ℕ → String → SubagentFault

-- The white space that `trim` drops.
is_space : ℕ → Bool
is_space n =
    (leb 9 n && leb n 13)
    || nat_eq n 32
    || nat_eq n 160
    || nat_eq n 5760
    || (leb 8192 n && leb n 8202)
    || nat_eq n 8232
    || nat_eq n 8233
    || nat_eq n 8239
    || nat_eq n 8287
    || nat_eq n 12288
    || nat_eq n 65279

-- `!s.trim()`
is_blank : String → Bool
unfolding is_space
is_blank String.[] = true
is_blank (String.◌∷◌ c s) = is_space (code c) && is_blank s

is_self : Option String → String → Bool
is_self none id = false
is_self (some self) id = id == self

-- A non-empty text.
named : Scalar → Option String
named (text t) = if is_empty t then none else some t
named _ = none

module _ (db : Db) (workspace : String) (self : Option String) where
  -- The checks of one entry that look only at it.
  own_fault : ℕ → String → Scalar → Option SubagentFault
  unfolding is_blank is_self
  own_fault i id (text t) =
      if is_blank t
      then some (instructions_required i)
      else if ltb 2000 (units t)
      then some (instructions_long i)
      else if is_self self id
      then some (self_delegation i)
      else none
  own_fault i id _ = some (instructions_required i)

  -- `seen` and `names` are the agents and target names of the entries before.
  unfoldable pub entries_fault : ℕ → List String → List String → List Entry → Option SubagentFault
  unfolding named own_fault
  entries_fault i seen names [] = none
  entries_fault i seen names (no_entry ∷ es) = some (must_be_entry i)
  entries_fault i seen names (entry agent_id instructions ∷ es) = elim (named agent_id) [
    | none ↦ some (agent_required i)
    | some id ↦ elim (own_fault i id instructions) [
      | some fault ↦ some fault
      | none ↦
          if includes seen id
          then some (duplicate_agent i id)
          else elim (get_agent db workspace id) [
            | none ↦ some (unknown_agent i id)
            | some a ↦
                if includes names a.name
                then some (duplicate_name i a.name)
                else entries_fault (i + 1) (id ∷ seen) (a.name ∷ names) es
          ]
    ]
  ]

  -- `none` is `null`: the field is accepted.
  unfoldable pub validate_subagents : Items Entry → Option SubagentFault
  unfolding entries_fault
  validate_subagents missing = none
  validate_subagents no_array = some subagents_array
  validate_subagents (items es) =
      if ltb 20 (length es) then some too_many_subagents else entries_fault 0 [] [] es
