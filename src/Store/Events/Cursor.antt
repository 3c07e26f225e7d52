-- ===== src/Store/Events/Cursor.antt =====
-- A reader that follows the transcript by its cursor misses nothing.
use devproofai.Base.{
  ℕ, ◌+◌, ◌≤◌, String, ◌≡◌, refl, true, false, ◌&&◌, List, [], ◌∷◌, ◌++◌, arith, ap, ltb, eq_refl,
  filter, filter-append, filter_none, filter_every, All, All-mono, map,
}
use devproofai.Store.Rows.{SessionEvent, EventRow, Db}
use devproofai.Store.Events.{row_of, is_fresh, insert_rows, append_events, last_seq, list_events}

-- The rows that one post adds.
abbrev pub added : Db → String → List SessionEvent → ℕ → List EventRow
added db id batch now =
    insert_rows (filter (is_fresh db.events id) batch) id (last_seq db.events id) now

new_rows_after :
    (es : List SessionEvent) (id : String) (seq now after : ℕ)
    → after ≤ seq
    → All (λ r. (row_of id r && ltb after r.seq) ≡ true) (insert_rows es id seq now)
unfolding insert_rows
new_rows_after [] id seq now after h = tt
new_rows_after (e ∷ es) id seq now after h =
    (ground (arith, eq_refl id), new_rows_after es id (seq + 1) now after (omega arith))

map-insert_rows :
    (es : List SessionEvent) (id : String) (seq now : ℕ)
    → map (λ r. r.kind) (insert_rows es id seq now) ≡ map (λ e. e.kind) es
unfolding insert_rows
map-insert_rows [] id seq now = refl
map-insert_rows (e ∷ es) id seq now = ap (◌∷◌ e.kind) (map-insert_rows es id (seq + 1) now)

-- From any cursor that is not ahead of the transcript, a read after a post gives what it gave
-- before and then the rows of the post, whose types are those of the events that were not stored
-- before, in the order of the batch.
pub list_events-append_events :
    (db : Db) (id : String) (batch : List SessionEvent) (now after : ℕ)
    → after ≤ last_seq db.events id
    → (list_events (append_events db id batch now).0 id after
        ≡ list_events db id after ++ added db id batch now)
      × (map (λ r. r.kind) (added db id batch now)
          ≡ map (λ e. e.kind) (filter (is_fresh db.events id) batch))
unfolding list_events append_events
list_events-append_events db id batch now after h = (
  rw (
    filter-append _ db.events (added db id batch now),
    filter_every _ (added db id batch now)
        (new_rows_after _ id (last_seq db.events id) now after h),
  ),
  map-insert_rows _ id (last_seq db.events id) now,
)

last_seq_le :
    (rows : List EventRow) (id : String)
    → All (λ r. (row_of id r && ltb (last_seq rows id) r.seq) ≡ false) rows
unfolding last_seq
last_seq_le [] id = tt
last_seq_le (r ∷ rows) id =
    (ground arith, All-mono _ _ rows (λ q h. ground arith) (last_seq_le rows id))

-- A reader whose cursor is the last number gets exactly the rows of the next post.
pub list_events_at_last :
    (db : Db) (id : String) (batch : List SessionEvent) (now : ℕ)
    → list_events (append_events db id batch now).0 id (last_seq db.events id)
      ≡ added db id batch now
unfolding list_events
list_events_at_last db id batch now = rw (
  (list_events-append_events db id batch now (last_seq db.events id) (omega arith)).0,
  filter_none _ db.events (last_seq_le db.events id),
)
