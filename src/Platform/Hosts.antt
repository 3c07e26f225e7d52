-- ===== src/Platform/Hosts.antt =====
-- `validateHosts` and `squidConf` of egress.ts: the configuration of an environment's proxy. A
-- configuration is the list of its lines.
use Prim.Native.Char.{Char, code}
use text.Mathlib.Text.{starts_with}
use devproofai.Base.{
  String, Bool, true, false, not, ◌&&◌, ◌||◌, List, [], ◌∷◌, ◌++◌, Option, ◌==◌, if◌then◌else◌, leb,
  ltb, nat_eq, all, filter, map, includes, find?,
}
use devproofai.Routing.Values.{units}
use devproofai.Platform.Keys.{add_char}
use devproofai.Gate.{◌<>◌}

-- [A-Za-z0-9_-]
is_host_char : Char → Bool
is_host_char c =
    (leb 65 (code c) && leb (code c) 90)
    || (leb 97 (code c) && leb (code c) 122)
    || (leb 48 (code c) && leb (code c) 57)
    || nat_eq (code c) 95
    || nat_eq (code c) 45

-- Labels between dots.
labels : String → List String
labels String.[] = String.[] ∷ []
labels (String.◌∷◌ c s) =
    let rest = labels s in if nat_eq (code c) 46 then String.[] ∷ rest else add_char c rest

all_chars : String → Bool
unfolding is_host_char
all_chars String.[] = true
all_chars (String.◌∷◌ c s) = is_host_char c && all_chars s

label_ok : String → Bool
unfolding all_chars
label_ok l = ltb 0 (units l) && leb (units l) 63 && all_chars l

drop_star : List String → List String
drop_star [] = []
drop_star (l ∷ []) = l ∷ []
drop_star (l ∷ m ∷ ls) = if l == "*" then m ∷ ls else l ∷ m ∷ ls

-- HOST_ENTRY_RE
unfoldable pub is_host_entry : String → Bool
unfolding label_ok labels drop_star
is_host_entry h = (h == "*") || all label_ok (drop_star (labels h))

unfoldable pub is_bad_host : String → Bool
is_bad_host h = ltb 253 (units h) || not (is_host_entry h)

-- The hosts are texts here; `some h` names the first that is refused.
unfoldable pub validate_hosts : List String → Option String
validate_hosts hosts = find? is_bad_host hosts

drop_first : String → String
drop_first String.[] = String.[]
drop_first (String.◌∷◌ c s) = s

-- h.replace(/^\*\./, ".")
undo_star : String → String
unfolding drop_first
undo_star h = if starts_with h "*." then drop_first h else h

dotted : String → String
dotted h = if starts_with h "." then h else "." <> h

join : List String → String
join [] = ""
join (x ∷ []) = x
join (x ∷ y ∷ xs) = x <> " " <> join (y ∷ xs)

package_hosts : Bool → List String
package_hosts true = ".pypi.org" ∷ ".files.pythonhosted.org" ∷ ".registry.npmjs.org" ∷ []
package_hosts false = []

access_lines : Bool → List String → List String
unfolding join
access_lines true ns = "http_access allow all" ∷ []
access_lines false [] = []
access_lines false (n ∷ ns) =
    ("acl allowed dstdomain " <> join (n ∷ ns)) ∷ "http_access allow allowed" ∷ []

unfoldable pub squid_conf : List String → Bool → List String → List String
unfolding undo_star dotted package_hosts access_lines
squid_conf hosts allow_package_managers mcp_hosts =
    ("http_port 3128" ∷ "cache deny all" ∷ "cache_mem 8 MB" ∷ "max_filedescriptors 1024" ∷ [])
    ++ access_lines (includes hosts "*") (
        map (λ h. dotted (undo_star h)) (filter (λ h. not (h == "*")) hosts)
        ++ map dotted mcp_hosts
        ++ package_hosts allow_package_managers)
    ++ "http_access deny all" ∷ []
