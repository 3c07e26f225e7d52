-- ===== src/Maintenance/Expiry.antt =====
-- The retention statements of repo.ts: what a prune deletes and which sessions and files are due.
use devproofai.Base.{
  ℕ, ◌+◌, String, Bool, true, false, not, ◌&&◌, ◌||◌, List, Option, none, some, ◌==◌, ltb, any,
  filter, includes, is_some,
}
use devproofai.Store.Rows.{Status, Session, FileRow, Db, is_completed}
use devproofai.Costs.Accruals.{CostEntry, PriceRow}

-- A row of gateway_usage, of routing_rejects.
pub record UsageRow : Type 0 where
  pub source : Option String
  pub created_at : ℕ

pub record RejectRow : Type 0 where
  pub routing : String
  pub created_at : ℕ

unfoldable pub prune_cost_entries : ℕ → ℕ → List CostEntry → List CostEntry
prune_cost_entries now cutoff es = filter (λ e. not (ltb (e.ts + cutoff) now)) es

is_session_source : Option String → Bool
is_session_source none = false
is_session_source (some s) = s == "session"

-- Usage of sessions stays: their token totals were summed from it.
unfoldable pub prune_gateway_usage : ℕ → ℕ → List UsageRow → List UsageRow
unfolding is_session_source
prune_gateway_usage now cutoff us =
    filter (λ u. not (ltb (u.created_at + cutoff) now && not (is_session_source u.source))) us

unfoldable pub prune_routing_rejects : ℕ → ℕ → List RejectRow → List RejectRow
prune_routing_rejects now cutoff rs = filter (λ r. not (ltb (r.created_at + cutoff) now)) rs

unfoldable pub prune_orphan_resource_prices : String → List String → List PriceRow → List PriceRow
prune_orphan_resource_prices kind live ps =
    filter (λ p. not ((p.kind == kind) && not (includes live p.ref))) ps

is_at_rest : Status → Bool
is_at_rest Status.idle = true
is_at_rest Status.failed = true
is_at_rest _ = false

-- No cutoff disables the leg.
past : ℕ → Option ℕ → ℕ → Bool
past now none t = false
past now (some cutoff) t = ltb (t + cutoff) now

-- `changed` is COALESCE(updated_at, created_at) of a session, a column that triggers keep.
unfoldable pub list_expired_sessions :
    (changed : Session → ℕ) → Db → ℕ → Option ℕ → Option ℕ → List Session
unfolding is_at_rest past
list_expired_sessions changed db now idle completed =
    filter
      (λ s.
        any (λ w. (w.id == s.workspace_id) && (w.status == "active")) db.workspaces
        && ((is_at_rest s.status && past now idle (changed s))
            || (is_completed s.status && past now completed (changed s))))
      db.sessions

-- `used` is COALESCE(last_attached_at, created_at) of a file.
unfoldable pub list_expired_files : (used : FileRow → ℕ) → Db → ℕ → String → ℕ → List FileRow
list_expired_files used db now kind cutoff =
    filter
      (λ f.
        (f.kind == kind)
        && (not (is_some f.session_id)
            && (not (any (λ r. r.file_id == f.id) db.session_files) && ltb (used f + cutoff) now)))
      db.files
