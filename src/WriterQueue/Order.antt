-- ===== src/WriterQueue/Order.antt =====
-- The queue of a writer is served first come, first served.
use devproofai.Base.{String, ◌≡◌, false, some, any}
use devproofai.Store.Rows.{PendingRow, Db}
use devproofai.Store.Pending.{writer_key, take_next_writer_launch, holds_slot}
use devproofai.Store.Pending.Parking.{take_next_writer_launch-Takes}
use devproofai.Store.Pending.Queue.{oldest-IsOldest, IsOldest}

-- A launch is taken only when no session holds the writer slot of the agent, and it is then one
-- that waits for this agent and that no other of its queue was parked before.
pub take_next_writer_launch-IsOldest :
    (db : Db) (agent : String) (p : PendingRow) (db' : Db)
    → take_next_writer_launch db agent ≡ (some p, db')
    → (any (holds_slot db.pending agent) db.sessions ≡ false)
      × IsOldest (writer_key agent) db.pending p
take_next_writer_launch-IsOldest db agent p db' e =
    let t = take_next_writer_launch-Takes db agent p db' e in
    (t.free, oldest-IsOldest (writer_key agent) db.pending p t.first)
