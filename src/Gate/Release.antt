-- ===== src/Gate/Release.antt =====
-- Releasing what is parked on a model.
use mathlib.Core.Option
use mathlib.Core.List.{append-nil, append_assoc}
use devproofai.Base.{
  ℕ, String, ◌≡◌, refl, ◌∙◌, Bool, not, ◌&&◌, ◌||◌, length, List, [], ◌∷◌, ◌++◌, Option, none, some,
  arith, ◌==◌, if◌then◌else◌, any, filter, map, Bool-cases, Option-cases, inl, inr, is_some,
}
use devproofai.Store.Rows.{Status, Launch, PendingRow, Db}
use devproofai.Store.Sessions.{get_session}
use devproofai.Store.Sessions.Updates.{status_of}
use devproofai.Store.Events.Effects.{status_of-mark-append_events, pending-mark-append_events}
use devproofai.Store.Pending.{take_pending_launches, waits_for}
use devproofai.Gate.{World, fail_waiting, release_one, release_rows, release_pending}

abbrev pub as_failed : Option Status → Option Status
as_failed o = Option.map (λ _. Status.failed) o

pub pending-fail_waiting :
    (db : Db) (id error : String) (now : ℕ) → (fail_waiting db id error now).pending ≡ db.pending
unfolding fail_waiting
pending-fail_waiting db id error now = pending-mark-append_events db id _ Status.failed now

-- A deferred launch that fails leaves its session failed, and no other session changes.
pub status_of-fail_waiting :
    (db : Db) (id error : String) (now : ℕ) (j : String)
    → status_of (fail_waiting db id error now) j
      ≡ (if id == j then as_failed (status_of db j) else status_of db j)
unfolding fail_waiting
status_of-fail_waiting db id error now j = status_of-mark-append_events db id _ Status.failed now j

failed_once :
    (b c : Bool) (o : Option Status)
    → (if b then as_failed (if c then as_failed o else o) else if c then as_failed o else o)
      ≡ (if c || b then as_failed o else o)
failed_once b c none = ground arith
failed_once b c (some st) = ground arith

module _ (start_error : Launch → Option String) (now : ℕ) where
  abbrev pub throws : PendingRow → Bool
  throws r = is_some (start_error r.payload)

  abbrev pub fails_in : List PendingRow → String → Bool
  fails_in rows j = any (λ r. throws r && (r.session_id == j)) rows

  started-release_one :
      (w : World) (r : PendingRow)
      → (release_one start_error now w r).started
        ≡ (if throws r then w.started else w.started ++ r.payload ∷ [])
  unfolding release_one
  started-release_one w r = elim (Option-cases (start_error r.payload)) [
    | inl ok ↦ rw (ok, release_one)
    | inr (err, e) ↦ rw (e, release_one)
  ]

  pending-release_one :
      (w : World) (r : PendingRow) → (release_one start_error now w r).db.pending ≡ w.db.pending
  unfolding release_one
  pending-release_one w r = elim (Option-cases (start_error r.payload)) [
    | inl ok ↦ rw (ok, release_one)
    | inr (err, e) ↦ rw (e, release_one) (pending-fail_waiting w.db r.session_id _ now)
  ]

  status_of-release_one :
      (w : World) (r : PendingRow) (j : String)
      → status_of (release_one start_error now w r).db j ≡ (
          if throws r && (r.session_id == j)
          then as_failed (status_of w.db j)
          else status_of w.db j)
  unfolding release_one
  status_of-release_one w r j = elim (Option-cases (start_error r.payload)) [
    | inl ok ↦ rw (ok, release_one)
    | inr (err, e) ↦ rw (e, release_one) (status_of-fail_waiting w.db r.session_id _ now j)
  ]

  woken-release_one :
      (w : World) (r : PendingRow) → (release_one start_error now w r).woken ≡ w.woken
  unfolding release_one
  woken-release_one w r = elim (Option-cases (start_error r.payload)) [
    | inl ok ↦ rw (ok, release_one)
    | inr (err, e) ↦ rw (e, release_one)
  ]

  woken-release_rows :
      (w : World) (rows : List PendingRow) → (release_rows start_error now w rows).woken ≡ w.woken
  unfolding release_rows
  woken-release_rows w [] = refl
  woken-release_rows w (r ∷ rows) =
      woken-release_rows (release_one start_error now w r) rows ∙ woken-release_one w r

  started-release_rows :
      (w : World) (rows : List PendingRow)
      → (release_rows start_error now w rows).started
        ≡ w.started ++ map (λ r. r.payload) (filter (λ r. not (throws r)) rows)
  unfolding release_rows
  started-release_rows w [] = rw append-nil
  started-release_rows w (r ∷ rows) =
      started-release_rows (release_one start_error now w r) rows
      ∙ rw (started-release_one w r) (elim (Bool-cases (throws r)) [
        | inl bad ↦ rw bad
        | inr ok ↦ rw ok (
            append_assoc w.started (r.payload ∷ [])
              (map (λ q. q.payload) (filter (λ q. not (throws q)) rows)))
      ])

  pending-release_rows :
      (w : World) (rows : List PendingRow)
      → (release_rows start_error now w rows).db.pending ≡ w.db.pending
  unfolding release_rows
  pending-release_rows w [] = refl
  pending-release_rows w (r ∷ rows) =
      pending-release_rows (release_one start_error now w r) rows ∙ pending-release_one w r

  status_of-release_rows :
      (w : World) (rows : List PendingRow) (j : String)
      → status_of (release_rows start_error now w rows).db j
        ≡ (if fails_in rows j then as_failed (status_of w.db j) else status_of w.db j)
  unfolding release_rows
  status_of-release_rows w [] j = refl
  status_of-release_rows w (r ∷ rows) j =
      status_of-release_rows (release_one start_error now w r) rows j
      ∙ rw (status_of-release_one w r j)
          (failed_once (fails_in rows j) (throws r && (r.session_id == j)) (status_of w.db j))

  -- Releasing a model starts the launches parked on it whose start does not throw, in the order
  -- of the table, leaves no row parked on it and every other row where it was, marks a session
  -- failed exactly where its own launch throws, and answers how many rows it took.
  pub release_pending_lem :
      (w : World) (model : String)
      → let rows : List PendingRow = filter (waits_for model) w.db.pending in
        let out : World × ℕ = release_pending start_error now w model in
        (out.0.started ≡ w.started ++ map (λ r. r.payload) (filter (λ r. not (throws r)) rows))
        × (out.0.db.pending ≡ filter (λ r. not (waits_for model r)) w.db.pending)
        × ((j : String)
            → status_of out.0.db j
              ≡ (if fails_in rows j then as_failed (status_of w.db j) else status_of w.db j))
        × (out.0.woken ≡ w.woken)
        × (out.1 ≡ length rows)
  unfolding release_pending take_pending_launches get_session
  release_pending_lem w model = (
    started-release_rows _ (filter (waits_for model) w.db.pending),
    pending-release_rows _ (filter (waits_for model) w.db.pending),
    status_of-release_rows _ (filter (waits_for model) w.db.pending),
    woken-release_rows _ (filter (waits_for model) w.db.pending),
    refl,
  )
