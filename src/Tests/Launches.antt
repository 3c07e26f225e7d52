-- ===== src/Tests/Launches.antt =====
-- The gate, the queue of the writers, the reconciler.
use devproofai.Base.{
  Bool, ℕ, ◌+◌, ◌≤◌, String, ◌≡◌, refl, false, not, List, [], ◌∷◌, ◌++◌, Option, none, some, arith,
  ◌==◌, if◌then◌else◌, map, filter, any, length, ◌||◌,
}
use devproofai.Store.Rows.{Status, Session, Db, PendingRow}
use devproofai.Store.Sessions.{get_session}
use devproofai.Store.Sessions.Updates.{status_of}
use devproofai.Store.Pending.{
  take_next_writer_launch, holds_slot, writer_key, waits_for, is_writer_key,
}
use devproofai.Store.Pending.Queue.{IsOldest}
use devproofai.Gate.{World, ModelPhase, release_pending, sweep_pending}
use devproofai.Gate
use devproofai.Gate.Release.{release_pending_lem, throws, fails_in, as_failed}
use devproofai.Gate.Sweep.{pending-sweep_pending, sweep_pending_twice, stays}
use devproofai.Reconciler.{JobState, sweep_zombie_sessions, is_parked, last_activity}
use devproofai.Reconciler
use devproofai.Reconciler.Verdicts.{IsZombie}
use devproofai.Reconciler.Zombies.{sweep_fails_zombies}
use devproofai.WriterQueue.Order.{take_next_writer_launch-IsOldest}
use devproofai.Tests.Stores.{store, free_store, world, session, parked, start_error}

-- The cluster: `qwen` is ready, any other lookup throws.
abbrev phases : String → Option (Option ModelPhase)
phases m = if m == "qwen" then some (some (Gate.local "Ready" none)) else none

release_pending_lem_example :
    let rows : List PendingRow = filter (waits_for "qwen") store.pending in
    let out : World × ℕ = release_pending start_error 99 world "qwen" in
    (out.0.started ≡ [] ++ map (λ r. r.payload) (filter (λ r. not (throws start_error 99 r)) rows))
    × (out.0.db.pending ≡ filter (λ r. not (waits_for "qwen" r)) store.pending)
    × ((j : String)
        → status_of out.0.db j ≡ (
            if fails_in start_error 99 rows j
            then as_failed (status_of store j)
            else status_of store j))
    × (out.0.woken ≡ [])
    × (out.1 ≡ length rows)
release_pending_lem_example = release_pending_lem start_error 99 world "qwen"

pending-sweep_pending_example :
    (sweep_pending start_error 99 phases world).db.pending
    ≡ filter (λ r. is_writer_key r.model || stays start_error 99 phases r.model) store.pending
pending-sweep_pending_example = pending-sweep_pending start_error 99 phases world

sweep_pending_twice_example :
    let v : World = sweep_pending start_error 99 phases world in
    let u : World = sweep_pending start_error 99 phases v in (u.db ≡ v.db) × (u.started ≡ v.started)
sweep_pending_twice_example = sweep_pending_twice start_error 99 phases world

-- Every job is gone.
abbrev no_job : String → ℕ → Option JobState
no_job id turn = some Reconciler.missing

abbrev running : Session
running = session "s1" Status.running 2 none

found_running : get_session store "s1" ≡ some running
unfolding get_session
found_running = refl

running_silent : last_activity store running + 120_000 ≤ 900_000
unfolding last_activity
running_silent = omega arith

running-IsZombie : IsZombie no_job 900_000 store running
running-IsZombie = record {
  moving = refl;
  unparked = refl;
  job = Reconciler.missing;
  looked_up = refl;
  dead = λ e. cc;
  silent = running_silent;
}

abbrev none_throws : String → Bool
none_throws id = false

sweep_fails_zombies_example :
    status_of (sweep_zombie_sessions no_job none_throws 900_000 store) "s1" ≡ some Status.failed
sweep_fails_zombies_example =
    sweep_fails_zombies no_job none_throws 900_000 store "s1" running found_running running-IsZombie

abbrev taken : Db
taken = record free_store { pending = parked "s5" "wq:writer" 31 ∷ [] }

takes_s2 : take_next_writer_launch free_store "writer" ≡ (some (parked "s2" "wq:writer" 30), taken)
unfolding take_next_writer_launch
takes_s2 = refl

take_next_writer_launch-IsOldest_example :
    (any (holds_slot free_store.pending "writer") free_store.sessions ≡ false)
    × IsOldest (writer_key "writer") free_store.pending (parked "s2" "wq:writer" 30)
take_next_writer_launch-IsOldest_example =
    take_next_writer_launch-IsOldest free_store "writer" (parked "s2" "wq:writer" 30) taken takes_s2
