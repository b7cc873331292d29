-- ===== src/Examples/Records.antt =====
-- The theorems on the workers behind metering at concrete inputs.
use ykt_aisaas.Base.{◌≡◌, ◌+◌, true, false, some, List, [], ◌∷◌, codes}
use ykt_aisaas.Redisx.{dim_llm_tokens_in}
use ykt_aisaas.Metering.{UsageRecord}
use ykt_aisaas.Metering.Workers.{Worker, Event, received, read, tick, work_all, stop}
use ykt_aisaas.Metering.Workers.Conserved.{count, copies, always, copies-work_all, stop_outcome}
use ykt_aisaas.Metering.Dlq.{DlqRow}
use ykt_aisaas.Chat.{usage_of}

abbrev usage : UsageRecord
usage = usage_of dim_llm_tokens_in 30 true (codes "m") (codes "r")

-- Three records wait and one is in the buffer.
abbrev busy : Worker
busy = record {
  waiting = usage ∷ usage ∷ usage ∷ [];
  buf = usage ∷ [];
  sink = record { detail = []; dead = [] };
}

abbrev loop : List Event
loop = received true ∷ received false ∷ tick true ∷ read true ∷ []

copies-work_all_example : copies always (work_all 2 always loop busy) ≡ 4
unfolding count
copies-work_all_example = copies-work_all always 2 loop busy

stop_outcome_example :
    let w = stop false always busy in
    (w.buf ≡ [])
    × (w.waiting ≡ usage ∷ usage ∷ usage ∷ [])
    × (count always w.sink.detail + count always w.sink.dead ≡ 1)
unfolding count
stop_outcome_example = stop_outcome always false busy

abbrev dead_row : DlqRow
dead_row = record { id = 1; payload = some usage; retry_count = 2 }
