-- ===== src/Metering/Workers.antt =====
-- The workers of internal/platform/metering/metering.go that write records to the database
-- (channelWorker, streamWorker, flushBatch), as functions of what their loops receive. The charge that
-- flushBatch makes from a stored batch is a sum of floating-point prices and is left out. A Boolean
-- says whether the batch is stored; `pushed` says of a record whether its row in the dead-letter
-- table is.
pub mod Conserved
use ykt_aisaas.Base.{
  ℕ, zero, suc, leb, Bool, true, false, List, [], ◌∷◌, ◌++◌, length, take, if◌then◌else◌,
}
use ykt_aisaas.Metering.{UsageRecord}

-- ykt_aisaas_usage_detail and ykt_aisaas_metering_dlq, by their records.
pub record Sink : Type 0 where
  pub detail : List UsageRecord
  pub dead : List UsageRecord

-- The loop that pushes each record to the dead-letter table; its errors are dropped.
push_all : (UsageRecord → Bool) → List UsageRecord → List UsageRecord → List UsageRecord
push_all pushed [] dead = dead
push_all pushed (rec ∷ buf) dead =
    push_all pushed buf (if pushed rec then dead ++ rec ∷ [] else dead)

-- flushBatch
unfoldable pub flush_batch : Bool → (UsageRecord → Bool) → List UsageRecord → Sink → Sink
unfolding push_all
flush_batch true pushed buf s = record s { detail = s.detail ++ buf }
flush_batch false pushed buf s = record s { dead = push_all pushed buf s.dead }

-- A worker: what waits in its channel, or in the stream for its group, its buffer, and the tables.
pub record Worker : Type 0 where
  pub waiting : List UsageRecord
  pub buf : List UsageRecord
  pub sink : Sink

flush_buf : Bool → (UsageRecord → Bool) → List UsageRecord → Worker → Worker
unfolding flush_batch
flush_buf stored pushed [] w = w
flush_buf stored pushed (rec ∷ buf) w = record w {
  buf = [];
  sink = flush_batch stored pushed (rec ∷ buf) w.sink;
}

-- The closure `flush`: nothing for an empty buffer.
unfoldable pub flush : Bool → (UsageRecord → Bool) → Worker → Worker
unfolding flush_buf
flush stored pushed w = flush_buf stored pushed w.buf w

flush_full : ℕ → Bool → (UsageRecord → Bool) → Worker → Worker
unfolding flush
flush_full batch_size stored pushed w =
    if leb batch_size (length w.buf) then flush stored pushed w else w

receive_from : ℕ → Bool → (UsageRecord → Bool) → List UsageRecord → Worker → Worker
unfolding flush_full
receive_from batch_size stored pushed [] w = w
receive_from batch_size stored pushed (rec ∷ rest) w =
    flush_full batch_size stored pushed (record w { waiting = rest; buf = w.buf ++ rec ∷ [] })

-- channelWorker receives a record, if one waits.
unfoldable pub receive : ℕ → Bool → (UsageRecord → Bool) → Worker → Worker
unfolding receive_from
receive batch_size stored pushed w = receive_from batch_size stored pushed w.waiting w

-- What XREADGROUP leaves behind.
unfoldable pub rest_of : ℕ → List UsageRecord → List UsageRecord
rest_of zero q = q
rest_of (suc n) [] = []
rest_of (suc n) (rec ∷ q) = rest_of n q

-- streamWorker reads up to a batch of messages and acknowledges each as it is put in the buffer.
-- Messages are those that hold a record.
unfoldable pub read_group : ℕ → Bool → (UsageRecord → Bool) → Worker → Worker
unfolding flush_full
read_group batch_size stored pushed w =
    flush_full batch_size stored pushed (record w {
      waiting = rest_of batch_size w.waiting;
      buf = w.buf ++ take batch_size w.waiting;
    })

-- What the loops do, with the result of a flush.
pub data Event : Type 0 where
  received read tick : (stored : Bool) → Event

unfoldable pub work : ℕ → (UsageRecord → Bool) → Event → Worker → Worker
unfolding receive read_group flush
work batch_size pushed (received stored) w = receive batch_size stored pushed w
work batch_size pushed (read stored) w = read_group batch_size stored pushed w
work batch_size pushed (tick stored) w = flush stored pushed w

unfoldable pub work_all : ℕ → (UsageRecord → Bool) → List Event → Worker → Worker
unfolding work
work_all batch_size pushed [] w = w
work_all batch_size pushed (e ∷ es) w = work_all batch_size pushed es (work batch_size pushed e w)

-- stopCh is closed: the last flush, after which the worker returns. What waits is left.
unfoldable pub stop : Bool → (UsageRecord → Bool) → Worker → Worker
unfolding flush
stop stored pushed w = flush stored pushed w
