-- ===== src/Actions/Reply.antt =====
-- Replies of the routes, and the guards that answer early.
use devproofai.Base.{ℕ, String, Bool, true, false, List, Option}
use devproofai.Store.Rows.{Status, FileRef}

-- `waitingFor`
pub data Waiting : Type 0 where
  on_model : (model phase : String) → Waiting
  on_writer : (agent : String) → Waiting

pub data Body : Type 0 where
  error : String → Body
  error_of : (message id : String) → Body
  session_queued : (id agent : String) (version : ℕ) (waiting : Option Waiting) → Body
  turn_queued : (id : String) (turn : ℕ) (waiting : Option Waiting) → Body
  child : (session : String) → Body
  completed : Body
  child_status :
      (status : Status) (result_text : Option String) (outputs : List FileRef)
      (failure_detail : Option String) (interrupted : Bool)
      → Body
  threw : String → Body

pub record Reply : Type 0 where
  pub code : ℕ
  pub body : Body

abbrev pub reply : ℕ → Body → Reply
reply code body = record { code = code; body = body }

-- A guard passes on a value, or answers.
pub data Check {ℓ} (A : Type ℓ) : Type ℓ where
  pass : A → Check A
  answer : Reply → Check A

infixl 5 ◌>>=◌ ◌>>◌
abbrev pub ◌>>=◌ {ℓ κ} : {A : Type ℓ} {B : Type κ} → Check A → (A → Check B) → Check B
pass a >>= f = f a
answer r >>= f = answer r

abbrev pub ◌>>◌ {ℓ} : {B : Type ℓ} → Check (Unit {0}) → Check B → Check B
m >> k = m >>= λ _. k

-- `if (bad) return …`
abbrev pub refuse_if : Bool → ℕ → String → Check (Unit {0})
refuse_if true code message = answer (reply code (error message))
refuse_if false code message = pass tt
