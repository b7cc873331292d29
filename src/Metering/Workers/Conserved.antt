-- ===== src/Metering/Workers/Conserved.antt =====
-- No record is lost or written twice by the workers of metering.go while they run.
use ykt_aisaas.Base.{
  ℕ, zero, suc, ◌+◌, ◌≡◌, refl, ap, ◌∙◌, Bool, true, false, inl, inr, Bool-cases, leb, List, [],
  ◌∷◌, ◌++◌, arith, length, take, if◌then◌else◌,
}
use ykt_aisaas.Metering.{UsageRecord}
use ykt_aisaas.Metering.Workers.{
  Worker, Event, received, read, tick, push_all, flush_batch, flush, flush_full, read_group,
  rest_of, work, work_all, flush_buf, receive_from, stop,
}

-- The records of a kind in a list.
unfoldable pub count : (UsageRecord → Bool) → List UsageRecord → ℕ
count p [] = 0
count p (rec ∷ q) = let rest = count p q in if p rec then suc rest else rest

count-append :
    (p : UsageRecord → Bool) (q r : List UsageRecord) → count p (q ++ r) ≡ count p q + count p r
unfolding count
count-append p [] r = omega arith
count-append p (rec ∷ q) r = ground (arith, count-append p q r)

-- The copies of a kind of record that a worker has in hand, and in the tables.
abbrev pub copies : (UsageRecord → Bool) → Worker → ℕ
copies p w = count p w.waiting + count p w.buf + count p w.sink.detail + count p w.sink.dead

abbrev pub always : UsageRecord → Bool
always rec = true

count-push_all :
    (p : UsageRecord → Bool) (buf dead : List UsageRecord)
    → count p (push_all always buf dead) ≡ count p dead + count p buf
unfolding push_all count
count-push_all p [] dead = omega arith
count-push_all p (rec ∷ buf) dead =
    ground (arith, count-push_all p buf (dead ++ rec ∷ []), count-append p dead (rec ∷ []))

copies-flush_buf :
    (p : UsageRecord → Bool) (stored : Bool) (buf : List UsageRecord) (w : Worker)
    → w.buf ≡ buf
    → copies p (flush_buf stored always buf w) ≡ copies p w
unfolding flush_buf flush_batch
copies-flush_buf p stored [] w h = refl
copies-flush_buf p true (rec ∷ buf) w h =
    rw (h, count-append p w.sink.detail (rec ∷ buf)) (unfold count in omega arith)
copies-flush_buf p false (rec ∷ buf) w h =
    rw (h, count-push_all p (rec ∷ buf) w.sink.dead) (unfold count in omega arith)

copies-flush :
    (p : UsageRecord → Bool) (stored : Bool) (w : Worker)
    → copies p (flush stored always w) ≡ copies p w
unfolding flush
copies-flush p stored w = copies-flush_buf p stored w.buf w refl

copies-flush_full :
    (p : UsageRecord → Bool) (batch_size : ℕ) (stored : Bool) (w : Worker)
    → copies p (flush_full batch_size stored always w) ≡ copies p w
unfolding flush_full
copies-flush_full p batch_size stored w = elim (Bool-cases (leb batch_size (length w.buf))) [
  | inl full ↦ rw full (copies-flush p stored w)
  | inr room ↦ rw room refl
]

copies-receive_from :
    (p : UsageRecord → Bool) (batch_size : ℕ) (stored : Bool) (waiting : List UsageRecord)
    (w : Worker)
    → w.waiting ≡ waiting
    → copies p (receive_from batch_size stored always waiting w) ≡ copies p w
unfolding receive_from
copies-receive_from p batch_size stored [] w h = refl
copies-receive_from p batch_size stored (rec ∷ rest) w h =
    copies-flush_full p batch_size stored (record w { waiting = rest; buf = w.buf ++ rec ∷ [] })
    ∙ rw (h, count-append p w.buf (rec ∷ [])) (unfold count in ground arith)

count-take :
    (p : UsageRecord → Bool) (n : ℕ) (q : List UsageRecord)
    → count p (rest_of n q) + count p (take n q) ≡ count p q
unfolding count rest_of
count-take p zero q = omega arith
count-take p (suc n) [] = refl
count-take p (suc n) (rec ∷ q) = ground (arith, count-take p n q)

copies-read_group :
    (p : UsageRecord → Bool) (batch_size : ℕ) (stored : Bool) (w : Worker)
    → copies p (read_group batch_size stored always w) ≡ copies p w
unfolding read_group
copies-read_group p batch_size stored w =
    copies-flush_full p batch_size stored (record w {
      waiting = rest_of batch_size w.waiting;
      buf = w.buf ++ take batch_size w.waiting;
    })
    ∙ rw (count-append p w.buf (take batch_size w.waiting))
        (omega (arith, count-take p batch_size w.waiting))

-- While a worker runs, in channel or in stream mode, no record is lost or written twice: of every
-- kind of record there are as many in what waits, the buffer and the two tables after any run as
-- before it, whichever batches are stored, as long as the dead-letter table takes its rows.
pub copies-work_all :
    (p : UsageRecord → Bool) (batch_size : ℕ) (events : List Event) (w : Worker)
    → copies p (work_all batch_size always events w) ≡ copies p w
unfolding work_all work
copies-work_all p batch_size [] w = refl
copies-work_all p batch_size (received stored ∷ es) w =
    copies-work_all p batch_size es _ ∙ copies-receive_from p batch_size stored w.waiting w refl
copies-work_all p batch_size (read stored ∷ es) w =
    copies-work_all p batch_size es _ ∙ copies-read_group p batch_size stored w
copies-work_all p batch_size (tick stored ∷ es) w =
    copies-work_all p batch_size es _ ∙ copies-flush p stored w

stop_buf :
    (stored : Bool) (buf : List UsageRecord) (w : Worker)
    → w.buf ≡ buf
    → ((flush_buf stored always buf w).waiting ≡ w.waiting)
      × ((flush_buf stored always buf w).buf ≡ [])
unfolding flush_buf
stop_buf stored [] w h = (refl, h)
stop_buf stored (rec ∷ buf) w h = (refl, refl)

only_written :
    (wait buf detail dead wait' buf' detail' dead' : ℕ)
    → wait' + buf' + detail' + dead' ≡ wait + buf + detail + dead
    → wait' ≡ wait
    → buf' ≡ 0
    → detail' + dead' ≡ detail + dead + buf
only_written wait buf detail dead wait' buf' detail' dead' same left emptied = omega arith

-- A worker that stops writes its buffer to one of the two tables, where the dead-letter table takes
-- its rows, and leaves what still waits where it is.
pub stop_outcome :
    (p : UsageRecord → Bool) (stored : Bool) (w : Worker)
    → let w' = stop stored always w in
      (w'.buf ≡ [])
      × (w'.waiting ≡ w.waiting)
      × (count p w'.sink.detail + count p w'.sink.dead
          ≡ count p w.sink.detail + count p w.sink.dead + count p w.buf)
unfolding stop flush count
stop_outcome p stored w =
    let (left, emptied) = stop_buf stored w.buf w refl in
    let same = copies-flush_buf p stored w.buf w refl in
    (emptied, left, only_written _ _ _ _ _ _ _ _ same (ap (count p) left) (ap (count p) emptied))
