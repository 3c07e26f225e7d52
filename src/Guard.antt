-- ===== src/Guard.antt =====
-- The read-only guard of a disabled workspace, control-plane/src/workspace-guard.ts, with the rules
-- of the console and of the public interface. A request is its method, its route pattern and the
-- workspace it resolves to; the cache is an association list, the newest entry of a workspace first.
pub mod Staleness
use Prim.Native.String
use text.Mathlib.Text.{starts_with}
use devproofai.Base.{
  ℕ, ◌+◌, String, Bool, true, false, not, ◌&&◌, ◌||◌, List, [], ◌∷◌, Option, none, some, ◌==◌,
  if◌then◌else◌, ltb, any, includes, is_empty, find?,
}
use devproofai.Gate.{◌<>◌}

pub record GuardRules : Type 0 where
  pub guarded : String → Bool
  pub exempt : String → Bool

pub record Request : Type 0 where
  pub method : String
  pub url : String
  pub workspace : Option String

-- `status` is `none` where the workspace has no row.
pub record CacheEntry : Type 0 where
  pub workspace : String
  pub status : Option String
  pub expires : ℕ

pub data Answer : Type 0 where
  let_through not_found being_deleted is_disabled : Answer

abbrev safe_methods : List String
safe_methods = "GET" ∷ "HEAD" ∷ "OPTIONS" ∷ []

-- What the status says of a request that is checked.
unfoldable pub verdict : Option String → Answer
verdict none = not_found
verdict (some st) =
    if st == "deleted"
    then not_found
    else if st == "deleting"
    then being_deleted
    else if not (st == "active")
    then is_disabled
    else let_through

-- Whether a request is checked, and for which workspace.
unfoldable pub checked_workspace : GuardRules → Request → Option String
checked_workspace rules r =
    if includes safe_methods r.method
    then none
    else if not (rules.guarded r.url) || rules.exempt r.url
    then none
    else elim r.workspace [ none ↦ none | some w ↦ if is_empty w then none else some w ]

abbrev pub hit : List CacheEntry → String → Option CacheEntry
hit cache w = find? (λ e. e.workspace == w) cache

-- `status_now` is the status that `getWorkspace` finds at this time.
module _ (ttl : ℕ) where
  fresh_entry : String → Option String → ℕ → CacheEntry
  fresh_entry w status_now now = record { workspace = w; status = status_now; expires = now + ttl }

  judge :
      List CacheEntry → String → Option String → ℕ → Option CacheEntry → List CacheEntry × Answer
  unfolding fresh_entry
  judge cache w status_now now none = (fresh_entry w status_now now ∷ cache, verdict status_now)
  judge cache w status_now now (some e) =
      if ltb e.expires now
      then (fresh_entry w status_now now ∷ cache, verdict status_now)
      else (cache, verdict e.status)

  check_status :
      List CacheEntry → (String → Option String) → ℕ → Option String → List CacheEntry × Answer
  unfolding judge
  check_status cache status_of now none = (cache, let_through)
  check_status cache status_of now (some w) = judge cache w (status_of w) now (hit cache w)

  unfoldable pub workspace_guard :
      GuardRules
      → List CacheEntry
      → (String → Option String)
      → ℕ
      → Request
      → List CacheEntry × Answer
  unfolding check_status
  workspace_guard rules cache status_of now r =
      check_status cache status_of now (checked_workspace rules r)

abbrev console_prefixes : List String
console_prefixes =
    "/v1/agents" ∷ "/v1/sessions" ∷ "/v1/files" ∷ "/v1/skills" ∷ "/v1/vaults" ∷ "/v1/memory-stores"
    ∷ "/v1/wikis" ∷ "/v1/environments" ∷ "/v1/webhooks" ∷ "/v1/api-keys" ∷ []

abbrev console_exempt : List String
console_exempt =
    "/v1/sessions/:id/interrupt" ∷ "/v1/sessions/:id/events" ∷ "/v1/sessions/:id/status"
    ∷ "/v1/sessions/:id/outputs" ∷ "/v1/sessions/:id/memory" ∷ "/v1/sessions/:id/wiki"
    ∷ "/v1/files/raw" ∷ []

abbrev pub console_rules : GuardRules
console_rules = record {
  guarded = λ url. any (λ p. (url == p) || starts_with url (p <> "/")) console_prefixes;
  exempt = λ url. includes console_exempt url;
}

ends_with : String → String → Bool
ends_with String.[] suffix = is_empty suffix
ends_with (String.◌∷◌ c s) suffix = (String.◌∷◌ c s == suffix) || ends_with s suffix

-- Every route of the public interface is guarded; three reads that ride POST are not.
unfoldable pub public_rules : GuardRules
unfolding ends_with
public_rules = record {
  guarded = λ url. true;
  exempt = λ url.
      ends_with url "/interrupt"
      || ends_with url "/events/stream"
      || ends_with url "/files/:id/content";
}
