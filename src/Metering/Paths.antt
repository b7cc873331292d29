-- ===== src/Metering/Paths.antt =====
-- Where a record of metering.go goes: which ends of its two round trips keep it, lose it, or keep
-- it twice.
use ykt_aisaas.Base.{ℕ, ◌+◌, ◌<◌, ◌≡◌, true, List, [], ◌∷◌, ◌++◌, arith, length, length-append}
use ykt_aisaas.Redis.{Link, answered, refused, lost}
use ykt_aisaas.Metering.{UsageRecord, Recorder, offer, xadd, deliver}

-- The copies of a record that some worker will still write to the database.
abbrev pub pending : Recorder → ℕ
pending r = length r.stream + length r.fallback + length r.channel

append-one : (q : List UsageRecord) (rec : UsageRecord) → length (q ++ rec ∷ []) ≡ length q + 1
append-one q rec = omega (arith, length-append q (rec ∷ []))

-- In stream mode a record with room to fall back on is never dropped: an answered XADD keeps one
-- copy, a refused one keeps one in the fallback, and one whose answer is lost keeps two.
pub pending-deliver :
    (link : Link) (rec : UsageRecord) (r : Recorder)
    → r.use_stream ≡ true
    → length r.fallback < r.fallback_cap
    → pending (deliver link rec r)
      ≡ pending r + (elim link [ answered ↦ 1 | refused ↦ 1 | lost ↦ 2 ])
unfolding deliver offer xadd
pending-deliver link rec r on room =
    ground (arith, append-one r.stream rec, append-one r.fallback rec)
