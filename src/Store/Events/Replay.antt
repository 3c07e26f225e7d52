-- ===== src/Store/Events/Replay.antt =====
-- A batch of events that is posted twice is stored once.
use devproofai.Base.{
  ℕ, ◌+◌, String, ◌≡◌, ◌≢◌, refl, inl, inr, Bool, false, ◌&&◌, List, [], ◌∷◌, ◌++◌, Option, none,
  some, arith, eq_iff, eq_refl, Bool-cases, filter, any-append, filter_none, filter-cons_true,
  filter-cons_false, subst, sym, ◌∙◌, All, All-mono,
}
use mathlib.Core.List.{append-nil}
use devproofai.Store.Rows.{SessionEvent, EventRow, Db}
use devproofai.Store.Events.{fresh_uid, is_fresh, insert_rows, append_events, last_seq}

-- The event carries an idempotency key.
abbrev pub HasUid : SessionEvent → Type 0
HasUid e = (u : String) × (e.uid ≡ some u) × (u ≢ "")

and_false : (b : Bool) → (b && false) ≡ false
and_false b = ground arith

module _ (id : String) where
  fresh_uid-append :
      (rows more : List EventRow) (u : Option String)
      → fresh_uid (rows ++ more) id u ≡ (fresh_uid rows id u && fresh_uid more id u)
  unfolding fresh_uid
  fresh_uid-append rows more none = refl
  fresh_uid-append rows more (some u) = rw (any-append {0} _ rows more) (ground arith)

  is_fresh-append :
      (rows more : List EventRow) (e : SessionEvent)
      → is_fresh (rows ++ more) id e ≡ (is_fresh rows id e && is_fresh more id e)
  unfolding is_fresh
  is_fresh-append rows more e = fresh_uid-append rows more e.uid

  -- A row that was just inserted makes its event stale.
  is_fresh-insert_rows :
      (e : SessionEvent) (es : List SessionEvent) (seq now : ℕ)
      → HasUid e
      → is_fresh (insert_rows (e ∷ es) id seq now) id e ≡ false
  unfolding is_fresh fresh_uid insert_rows
  is_fresh-insert_rows e es seq now (u, has, ne) =
      rw has (ground (arith, eq_iff u "", eq_refl id, eq_refl u, has))

  -- A further row in the middle keeps a stale event stale.
  is_fresh-cons :
      (rows : List EventRow) (r : EventRow) (more : List EventRow) (e : SessionEvent)
      → is_fresh (rows ++ more) id e ≡ false
      → is_fresh (rows ++ r ∷ more) id e ≡ false
  is_fresh-cons rows r more e h = ground (
    arith,
    is_fresh-append rows (r ∷ more) e,
    is_fresh-append (r ∷ []) more e,
    is_fresh-append rows more e,
  )

  -- Each event of the batch was stored before, or is stored now.
  covered :
      (rows : List EventRow) (batch : List SessionEvent) (seq now : ℕ)
      → All HasUid batch
      → (kept : List SessionEvent) → filter (is_fresh rows id) batch ≡ kept
      → All (λ e. is_fresh (rows ++ insert_rows kept id seq now) id e ≡ false) batch
  unfolding insert_rows
  covered rows [] seq now h kept same = tt
  covered rows (e ∷ batch) seq now (he, h) kept same = elim (Bool-cases (is_fresh rows id e)) [
    | inl fresh ↦
        let keeps = filter-cons_true (is_fresh rows id) e batch fresh in
        subst
          (λ k. All (λ e'. is_fresh (rows ++ insert_rows k id seq now) id e' ≡ false) (e ∷ batch))
          (sym keeps ∙ same)
          (
            rw
                (
                  is_fresh-append,
                  is_fresh-insert_rows e (filter (is_fresh rows id) batch) seq now he,
                )
                (and_false _),
            All-mono _ _ batch (λ e' k. is_fresh-cons rows _ _ e' k)
                (covered rows batch (seq + 1) now h _ refl),
          )
    | inr stale ↦
        let drops = filter-cons_false (is_fresh rows id) e batch stale in
        (rw (is_fresh-append, stale), covered rows batch seq now h kept (sym drops ∙ same))
  ]

-- Posting a batch whose events all carry a key a second time, whatever rows were stored in
-- between, stores nothing: the rows stay as they were, in the same order.
pub append_events_twice :
    (db : Db) (id : String) (batch : List SessionEvent) (now later : ℕ) (between : List EventRow)
    → All HasUid batch
    → let posted : Db = (append_events db id batch now).0 in
      let reached : Db = record posted { events = posted.events ++ between } in
      (append_events reached id batch later).0.events ≡ reached.events
unfolding append_events
append_events_twice db id batch now later between h =
    let rows =
      db.events
      ++ insert_rows (filter (is_fresh db.events id) batch) id (last_seq db.events id) now in
    let stale =
      All-mono _ _ batch (λ e k. rw (is_fresh-append id rows between e, k))
        (covered id db.events batch (last_seq db.events id) now h _ refl) in
    rw (filter_none (is_fresh (rows ++ between) id) batch stale) (append-nil _)
