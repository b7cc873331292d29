-- ===== src/Examples/Assignments.antt =====
-- The theorems on the variants of experiments, with numbers for float64.
use ykt_aisaas.Base.{
  ℕ, ◌+◌, ◌/◌, ◌&&◌, refl, true, false, none, some, [], ◌∷◌, List, Text, codes, ltb, text_eq,
}
use ykt_aisaas.Redis.{refused}
use ykt_aisaas.Redis.Memory.{memory, empty_table}
use ykt_aisaas.Database.{every_row, scope}
use ykt_aisaas.AbTest.{Experiment, running, runs}
use ykt_aisaas.AbTest.Assign.{Floats, Variant, assign_variant, find_running}
use ykt_aisaas.AbTest.Assigned.{Assigned, assign_variant_total}

abbrev numbers : Floats ℕ
numbers = record {
  zero_float = 0;
  add = λ a b. a + b;
  less = ltb;
  percent_of = λ bucket. bucket / 100;
}

abbrev blue : Variant ℕ
blue = record { id = 1; name = codes "blue"; allocation_percent = 30; is_control = true }

abbrev green : Variant ℕ
green = record { id = 2; name = codes "green"; allocation_percent = 70; is_control = false }

abbrev colours : Experiment
colours = record {
  id = 9;
  name = codes "e";
  status = running;
  started_at = some 1;
  ended_at = none;
}

abbrev variants_of : ℕ → List (Variant ℕ)
variants_of id = blue ∷ green ∷ []

-- A hash that puts everyone in the bucket 4711
abbrev hash64 : Text → ℕ
hash64 text = 4711

-- Redis and the INSERT fail.
assign_variant_total_example :
    Assigned memory numbers hash64
      (runs every_row true && runs every_row true)
      (blue ∷ green ∷ [])
      empty_table
      []
      (assign_variant memory numbers hash64 true
        (some 7)
        true
        true
        refused
        false
        refused
        text_eq
        5
        (colours ∷ [])
        variants_of
        (codes "e")
        (codes "u")
        7
        empty_table
        [])
unfolding find_running text_eq scope
assign_variant_total_example =
    assign_variant_total memory numbers hash64 true (some 7) true true refused refused false text_eq
      5 7 (colours ∷ []) variants_of (codes "e") (codes "u") empty_table [] colours blue
      (green ∷ []) refl refl
