-- ===== src/AbTest/Assigned.antt =====
-- Every user gets a variant of a running experiment that can be loaded.
use mathlib.Core.List.{Memᴰ}
use mathlib.Core.List.Memᴰ.{head, tail}
use ykt_aisaas.Base.{
  ℕ, ◌≡◌, ◌⊎◌, ◌&&◌, refl, Bool, true, false, inl, inr, Bool-cases, Option-cases, Option, none,
  some, List, [], ◌∷◌, Text, text_eq, arith,
}
use ykt_aisaas.Redis.{Redis, Link, answered}
use ykt_aisaas.Database.{scope}
use ykt_aisaas.AbTest.{Experiment, runs}
use ykt_aisaas.AbTest.Assign.{
  Floats, Variant, Assignment, hash_bucket, assign_key, select_from, select_variant, find_named,
  hit, cached_variant, store_assignment, assign_loaded, assign_with, assign_variant, find_running,
  load_running,
}

module _ {F : Type 0} (fl : Floats F) where
  select_from-Mem :
      (bucket cumulative : F) (last : Variant F) (vs : List (Variant F))
      → Memᴰ (select_from fl bucket cumulative last vs) (last ∷ vs)
  unfolding select_from
  select_from-Mem bucket cumulative last [] = head refl
  select_from-Mem bucket cumulative last (v ∷ vs) =
      let total = fl.add cumulative v.allocation_percent in
      elim (Bool-cases (fl.less bucket total)) [
        | inl here ↦ rw here (tail (head refl))
        | inr later ↦ rw later (tail (select_from-Mem bucket total v vs))
      ]

  again : (v w : Variant F) (vs : List (Variant F)) → Memᴰ v (w ∷ w ∷ vs) → Memᴰ v (w ∷ vs)
  again v w vs (head e) = head e
  again v w vs (tail m) = m

find_named-Mem :
    {F : Type 0} (name : Text) (vs : List (Variant F)) (v : Variant F)
    → find_named name vs ≡ some v
    → Memᴰ v vs
unfolding find_named
find_named-Mem name [] v h = absurd (ground (arith, h))
find_named-Mem name (w ∷ vs) v h = elim (Bool-cases (text_eq w.name name)) [
  | inl here ↦ head (ground (arith, h, here))
  | inr later ↦
      let found : find_named name vs ≡ some v = ground (arith, h, later) in
      tail (find_named-Mem name vs v found)
]

hit-Mem :
    {F : Type 0} (name : Text) (vs : List (Variant F)) (v : Variant F)
    → hit name vs ≡ some v
    → Memᴰ v vs
unfolding hit
hit-Mem [] vs v h = absurd (ground (arith, h))
hit-Mem (c ∷ name) vs v h = find_named-Mem (c ∷ name) vs v h

module _ {F : Type 0} (R : Redis) (fl : Floats F) (hash64 : Text → ℕ) where
  open R use {Db, read, set}

  assign_with_total :
      (get put : Link) (stored : Bool) (now exp tid : ℕ) (w : Variant F) (vs : List (Variant F))
      (experiment user : Text) (d : Db) (rows : List Assignment)
      → (v : Variant F) × ((assign_with R fl hash64 get stored put now
            (some (exp, w ∷ vs))
            experiment
            user
            tid
            d
            rows).0
          ≡ some v)
        × Memᴰ v (w ∷ vs)
  unfolding assign_with assign_loaded store_assignment select_variant
  assign_with_total get put stored now exp tid w vs experiment user d rows =
      elim (Option-cases
        (cached_variant R fl hash64 get now (assign_key experiment user) (w ∷ vs) d)) [
          | inl absent ↦
              let bucket = fl.percent_of (hash_bucket hash64 experiment user) in
              rw absent (
                select_from fl bucket fl.zero_float w (w ∷ vs),
                refl,
                again fl (select_from fl bucket fl.zero_float w (w ∷ vs)) w vs
                    (select_from-Mem fl bucket fl.zero_float w (w ∷ vs)),
              )
          | inr (v, cached) ↦ rw cached (v, refl, cached_member get v d cached)
        ]
    where
      cached_member :
          (get : Link) (v : Variant F) (d : Db)
          → cached_variant R fl hash64 get now (assign_key experiment user) (w ∷ vs) d ≡ some v
          → Memᴰ v (w ∷ vs)
      cached_member answered v d h = unfold cached_variant in hit-Mem _ (w ∷ vs) v h
      cached_member Link.refused v d h = unfold cached_variant in absurd (ground (arith, h))
      cached_member Link.lost v d h = unfold cached_variant in absurd (ground (arith, h))

  -- One of the variants where the loading answers, and else an error without effects
  abbrev pub Assigned :
      Bool
      → List (Variant F)
      → Db
      → List Assignment
      → Option (Variant F) × Db × List Assignment
      → Type 0
  Assigned answers vs d rows res =
      ((answers ≡ true) × (v : Variant F) × (res.0 ≡ some v) × Memᴰ v vs)
      ⊎ ((answers ≡ false) × (res ≡ (none, d, rows)))

  loaded_total :
      (answers answers' : Bool) (get put : Link) (stored : Bool) (same : Text → Text → Bool)
      (now tid : ℕ) (experiments : List Experiment) (variants_of : ℕ → List (Variant F))
      (name user : Text) (d : Db) (rows : List Assignment) (exp : Experiment) (w : Variant F)
      (vs : List (Variant F))
      → find_running same name experiments ≡ some exp
      → variants_of exp.id ≡ w ∷ vs
      → Assigned (answers && answers') (variants_of exp.id) d rows (
          assign_with R fl hash64 get stored put now
            (load_running R fl hash64 answers answers' same name experiments variants_of)
            name
            user
            tid
            d
            rows)
  unfolding load_running
  loaded_total true true get put stored same now tid experiments variants_of name user d rows exp w
        vs found some_variant =
      let (v, given, member) =
        assign_with_total get put stored now exp.id tid w vs name user d rows in
      inl (refl, v, rw (found, some_variant) given, rw some_variant member)
  loaded_total true false get put stored same now tid experiments variants_of name user d rows exp w
        vs found some_variant =
      inr (refl, rw found (unfold assign_with in refl))
  loaded_total false answers' get put stored same now tid experiments variants_of name user d rows
        exp w vs found some_variant =
      inr (refl, unfold assign_with in refl)

  -- AssignVariant for a running experiment with at least one variant: where the SELECTs of the
  -- experiment and of its variants both answer and the tenant plugin lets both run, the user is
  -- assigned one of its variants, whatever is cached and whichever of the commands and statements that
  -- follow fail; where one of the two does not, it is an error that changes neither the cache nor the
  -- table.
  pub assign_variant_total :
      (exempt : Bool) (ctx : Option ℕ) (answers answers' : Bool) (get put : Link) (stored : Bool)
      (same : Text → Text → Bool) (now tid : ℕ) (experiments : List Experiment)
      (variants_of : ℕ → List (Variant F)) (name user : Text) (d : Db) (rows : List Assignment)
      (exp : Experiment) (w : Variant F) (vs : List (Variant F))
      → find_running same name experiments ≡ some exp
      → variants_of exp.id ≡ w ∷ vs
      → let sc = scope exempt false ctx in
        Assigned (runs sc answers && runs sc answers') (variants_of exp.id) d rows (
          assign_variant R fl hash64 exempt ctx answers answers' get stored put same now experiments
            variants_of name user tid d rows)
  unfolding assign_variant
  assign_variant_total exempt ctx answers answers' get put stored same now tid experiments
        variants_of name user d rows exp w vs found some_variant =
      let sc = scope exempt false ctx in
      loaded_total (runs sc answers) (runs sc answers') get put stored same now tid experiments
        variants_of name user d rows exp w vs found some_variant
