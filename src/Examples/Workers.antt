-- ===== src/Examples/Workers.antt =====
-- The theorems on the outbox at concrete inputs.
use ykt_aisaas.Base.{ℕ, ◌≡◌, ◌*◌, refl, true, some, Option, [], ◌∷◌, Text, codes, pos, All}
use ykt_aisaas.Outbox.{
  Row, Message, write_row, claim_row, select_pending, backoff, second, process_batch,
}
use ykt_aisaas.Outbox.Backoff.{backoff_exact}
use ykt_aisaas.Outbox.Life.{IsSound, find, process_batch-IsSound}
use ykt_aisaas.Outbox.Claims.{System, Reach, select, claim, at, here, next}
use ykt_aisaas.Outbox.Batch.{changed, handled, process_batch_outcome}
use ykt_aisaas.Outbox.Exclusive.{IsExclusive, Reach-IsExclusive}

backoff_exact_example : backoff (pos 4) ≡ 16 * second
backoff_exact_example = backoff_exact 4

abbrev memo : Message
memo = record { tenant_id = codes "7"; device_id = codes "d"; payload = []; kind = codes "upsert" }

abbrev fresh_row : Row
fresh_row = write_row 1 memo (codes "{}")

-- A row at its tenth retry.
abbrev worn_row : Row
worn_row = record (write_row 2 memo (codes "{}")) { retry_count = 10 }

abbrev always_fails : Message → Option Text
always_fails m = some (codes "down")

process_batch-IsSound_example : All IsSound (
    process_batch always_fails (codes "w") 20 0 (λ i. true) (λ i. true) (fresh_row ∷ worn_row ∷ []))
process_batch-IsSound_example =
    process_batch-IsSound always_fails (codes "w") 20 0 (λ i. true) (λ i. true)
      (fresh_row ∷ worn_row ∷ []) (unfold write_row in (refl, (refl, tt)))

process_batch_outcome_example :
    find 2 (
      process_batch always_fails
        (codes "w")
        20
        0
        (λ i. true)
        (λ i. true)
        (fresh_row ∷ worn_row ∷ []))
    ≡ changed
        (handled always_fails (codes "w") 0)
        (find 2 (select_pending 0 20 (fresh_row ∷ worn_row ∷ [])))
        (find 2 (fresh_row ∷ worn_row ∷ []))
process_batch_outcome_example =
    process_batch_outcome always_fails (codes "w") 20 0 (fresh_row ∷ worn_row ∷ []) 2
      (unfold find in unfold write_row in (refl, (refl, tt)))

abbrev start : System
start = record { rows = fresh_row ∷ []; selected = λ w. []; claimed = λ w. [] }

abbrev workers : ℕ → Text
workers w = codes "w"

-- Worker 0 selects the message,
abbrev after_select : System
after_select = record start { selected = at 0 (fresh_row ∷ []) start.selected }

-- and claims it.
abbrev after_claim : System
after_claim = record {
  rows = (claim_row (workers 0) 1 start.rows).1;
  selected = at 0 [] after_select.selected;
  claimed = at 0 (fresh_row ∷ []) start.claimed;
}

selected_and_claimed : Reach workers start after_claim
unfolding select_pending claim_row write_row
selected_and_claimed = next (next here (select 0 0 20 refl refl)) (claim 0 fresh_row [] refl refl)

Reach-IsExclusive_example : IsExclusive after_claim
Reach-IsExclusive_example = Reach-IsExclusive workers (λ w. refl) selected_and_claimed
