-- ===== src/Platform/Keys.antt =====
-- `objectKey`, `validEntryPath` of object-key.ts: where a file's content is stored.
use Prim.Native.Char.{Char, code}
use devproofai.Base.{
  String, Bool, false, not, ◌&&◌, ◌||◌, List, [], ◌∷◌, Option, none, some, ◌==◌, if◌then◌else◌, ltb,
  nat_eq, all, is_empty,
}
use devproofai.Routing.Values.{units}
use devproofai.Gate.{◌<>◌}

pub data ObjectRef : Type 0 where
  upload output : (workspace file : String) → ObjectRef
  checkpoint : (workspace session file : String) → ObjectRef
  memory : (workspace store path : String) → ObjectRef
  skill : (workspace skill path : String) → ObjectRef
  wiki : (workspace wiki path : String) → ObjectRef

unfoldable pub add_char : Char → List String → List String
add_char c [] = String.◌∷◌ c String.[] ∷ []
add_char c (s ∷ ss) = String.◌∷◌ c s ∷ ss

-- path.split("/")
unfoldable pub segments : String → List String
unfolding add_char
segments String.[] = String.[] ∷ []
segments (String.◌∷◌ c s) =
    let rest = segments s in if nat_eq (code c) 47 then String.[] ∷ rest else add_char c rest

-- A backslash or a control character.
is_bad_char : Char → Bool
is_bad_char c = nat_eq (code c) 92 || ltb (code c) 32

has_bad_char : String → Bool
unfolding is_bad_char
has_bad_char String.[] = false
has_bad_char (String.◌∷◌ c s) = is_bad_char c || has_bad_char s

unfoldable pub valid_entry_path : String → Bool
unfolding has_bad_char
valid_entry_path path =
    if is_empty path || ltb 512 (units path)
    then false
    else if has_bad_char path
    then false
    else all (λ s. not (is_empty s) && not (s == ".") && not (s == "..")) (segments path)

-- `none` is the error "bad entry path".
under : String → String → Option String
under prefix path = if valid_entry_path path then some (prefix <> "/" <> path) else none

unfoldable pub object_key : ObjectRef → Option String
unfolding under
object_key (upload ws file) = some (ws <> "/files/" <> file)
object_key (output ws file) = some (ws <> "/files/" <> file)
object_key (checkpoint ws session file) = some (ws <> "/sessions/" <> session <> "/" <> file)
object_key (memory ws store path) = under (ws <> "/memory/" <> store) path
object_key (skill ws id path) = under (ws <> "/skills/" <> id) path
object_key (wiki ws id path) = under (ws <> "/wiki/" <> id) path
