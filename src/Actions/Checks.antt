-- ===== src/Actions/Checks.antt =====
-- What a chain of guards passes on.
use devproofai.Base.{ℕ, String, ◌≡◌, refl, Bool, true, false}
use devproofai.Actions.Reply.{reply, error, Check, pass, answer, ◌>>=◌, refuse_if}

-- The guards pass on a value with the property, or answer with an error.
pub data Judged {A : Type 0} (P : A → Type 0) : Check A → Type 0 where
  passes : (a : A) → P a → Judged P (pass a)
  refuses : (code : ℕ) (message : String) → Judged P (answer (reply code (error message)))

pub Judged-bind :
    {A B : Type 0} (P : A → Type 0) (Q : B → Type 0) (m : Check A) (f : A → Check B)
    → Judged P m
    → ((a : A) → P a → Judged Q (f a))
    → Judged Q (m >>= f)
Judged-bind P Q m f (passes a h) k = k a h
Judged-bind P Q m f (refuses code message) k = refuses code message

pub Judged-refuse_if :
    (bad : Bool) (code : ℕ) (message : String)
    → Judged (λ _. bad ≡ false) (refuse_if bad code message)
Judged-refuse_if true code message = refuses code message
Judged-refuse_if false code message = passes tt refl

pub Judged-mono :
    {A : Type 0} (P Q : A → Type 0) (c : Check A) → ((a : A) → P a → Q a) → Judged P c → Judged Q c
Judged-mono P Q c f (passes a h) = passes a (f a h)
Judged-mono P Q c f (refuses code message) = refuses code message
