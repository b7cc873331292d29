-- ===== src/Anomaly/Evaluation.antt =====
-- evaluateAll of engine.go: which events a round of the engine raises. The collector of metrics is
-- an argument; the rounds of the ticker are not modelled.
use mathlib.Core.List.{Memᴰ}
use ykt_aisaas.Base.{
  ℕ, ◌≡◌, ◌↔◌, ◌⊎◌, refl, sym, ap, ◌∙◌, Bool, true, false, not, inl, inr, Bool-cases, Option, none,
  some, List, [], ◌∷◌, ◌++◌, Text, text_eq, text_eq_iff, text_eq_refl, ℤ, Assoc, lookup, IsDistinct,
  if◌then◌else◌, arith, Mem-append_left, Mem-append_last, Mem_of_append_last,
}
use ykt_aisaas.Anomaly.{Rule, Event, Engine, Outside, Documented}
use ykt_aisaas.Anomaly.Agree.{active, stored_rule, Agrees}

-- What a round writes and sends: the rows of events, and the events with their channels.
pub record Round (F : Type 0) : Type 0 where
  pub events : List (Event F)
  pub sent : List (Event F × List Text)

module _ {F : Type 0} (O : Outside F) where
  open O use {exceeds, message_of}

  unfoldable pub event_of : ℕ → Rule F → F → Event F
  event_of now rule value = record {
    rule_id = rule.id;
    tenant_id = rule.tenant_id;
    triggered_at = now;
    metric_value = value;
    severity = rule.severity;
    message = message_of rule.name value rule.threshold;
    notified = false;
  }

  -- `saves` says for which events the INSERT of saveEvent succeeds.
  raised : (Event F → Bool) → List Text → Event F → Round F → Round F
  raised saves channels event round = record {
    events = if saves event then round.events ++ event ∷ [] else round.events;
    sent = round.sent ++ (event, channels) ∷ [];
  }

  judged : (Event F → Bool) → ℕ → Rule F → Option F → Round F → Round F
  unfolding raised event_of
  judged saves now rule none round = round
  judged saves now rule (some value) round =
      if exceeds value rule.threshold
      then raised saves rule.channels (event_of now rule value) round
      else round

  -- One rule of the loop
  evaluate : (Text → ℤ → Option F) → (Event F → Bool) → ℕ → Rule F → Round F → Round F
  unfolding judged
  evaluate collect saves now rule round =
      if not rule.enabled
      then round
      else judged saves now rule (collect rule.metric rule.window) round

  unfoldable pub evaluate_rules :
      (Text → ℤ → Option F) → (Event F → Bool) → ℕ → Assoc (Rule F) → Round F → Round F
  unfolding evaluate
  evaluate_rules collect saves now [] round = round
  evaluate_rules collect saves now ((id, rule) ∷ rules) round =
      evaluate_rules collect saves now rules (evaluate collect saves now rule round)

  -- evaluateAll
  unfoldable pub evaluate_all : (Text → ℤ → Option F) → (Event F → Bool) → ℕ → Engine F → Round F
  unfolding evaluate_rules
  evaluate_all collect saves now e =
      evaluate_rules collect saves now e.rules (record { events = e.events; sent = [] })

  -- That a rule is enabled, and its metric is there and above its threshold.
  abbrev pub Fires : (Text → ℤ → Option F) → Rule F → F → Type 0
  Fires collect rule value =
      (rule.enabled ≡ true)
      × (collect rule.metric rule.window ≡ some value)
      × (exceeds value rule.threshold ≡ true)

  Sent : Event F × List Text → Round F → Type 0
  Sent n round = Memᴰ n round.sent

  -- What a rule raises, of itself.
  abbrev pub RaisedBy : (Text → ℤ → Option F) → ℕ → Rule F → Event F × List Text → Type 0
  RaisedBy collect now rule n =
      (value : F) × Fires collect rule value × (n ≡ (event_of now rule value, rule.channels))

  judged-Sent :
      (saves : Event F → Bool) (now : ℕ) (rule : Rule F) (found : Option F) (round : Round F)
      (n : Event F × List Text)
      → Sent n (judged saves now rule found round)
      → Sent n round
        ⊎ ((value : F) × (found ≡ some value)
            × (exceeds value rule.threshold ≡ true)
            × (n ≡ (event_of now rule value, rule.channels)))
  unfolding judged raised Sent
  judged-Sent saves now rule none round n = λ m. inl m
  judged-Sent saves now rule (some value) round n =
      elim (Bool-cases (exceeds value rule.threshold)) [
        | inl above ↦ simp (above) (λ m.
            elim (Mem_of_append_last n (event_of now rule value, rule.channels) round.sent m) [
              | inl before ↦ inl before
              | inr last ↦ inr (value, refl, above, last)
            ])
        | inr below ↦ simp (below) (λ m. inl m)
      ]

  evaluate-Sent :
      (collect : Text → ℤ → Option F) (saves : Event F → Bool) (now : ℕ) (rule : Rule F)
      (round : Round F) (n : Event F × List Text)
      → Sent n (evaluate collect saves now rule round)
      → Sent n round ⊎ RaisedBy collect now rule n
  unfolding evaluate
  evaluate-Sent collect saves now rule round n = elim (Bool-cases rule.enabled) [
    | inl on ↦ simp (on) (λ m.
        elim (judged-Sent saves now rule (collect rule.metric rule.window) round n m) [
          | inl before ↦ inl before
          | inr (value, found, above, same) ↦ inr (value, (refl, found, above), same)
        ])
    | inr off ↦ simp (off) (λ m. inl m)
  ]

  judged_keeps :
      (saves : Event F → Bool) (now : ℕ) (rule : Rule F) (found : Option F) (round : Round F)
      (n : Event F × List Text)
      → Sent n round
      → Sent n (judged saves now rule found round)
  unfolding judged raised Sent
  judged_keeps saves now rule none round n m = m
  judged_keeps saves now rule (some value) round n m =
      elim (Bool-cases (exceeds value rule.threshold)) [
        | inl above ↦
            simp (above)
              (Mem-append_left n round.sent ((event_of now rule value, rule.channels) ∷ []) m)
        | inr below ↦ simp (below) m
      ]

  evaluate_keeps :
      (collect : Text → ℤ → Option F) (saves : Event F → Bool) (now : ℕ) (rule : Rule F)
      (round : Round F) (n : Event F × List Text)
      → Sent n round
      → Sent n (evaluate collect saves now rule round)
  unfolding evaluate
  evaluate_keeps collect saves now rule round n m = elim (Bool-cases rule.enabled) [
    | inl on ↦ simp (on) (judged_keeps saves now rule (collect rule.metric rule.window) round n m)
    | inr off ↦ simp (off) m
  ]

  evaluate-Fires :
      (collect : Text → ℤ → Option F) (saves : Event F → Bool) (now : ℕ) (rule : Rule F)
      (round : Round F) (value : F)
      → Fires collect rule value
      → Sent (event_of now rule value, rule.channels) (evaluate collect saves now rule round)
  unfolding evaluate judged raised Sent
  evaluate-Fires collect saves now rule round value (on, found, above) =
      simp (on, found, above) (Mem-append_last (event_of now rule value, rule.channels) round.sent)

  rules_keep :
      (collect : Text → ℤ → Option F) (saves : Event F → Bool) (now : ℕ) (rules : Assoc (Rule F))
      (round : Round F) (n : Event F × List Text)
      → Sent n round
      → Sent n (evaluate_rules collect saves now rules round)
  unfolding evaluate_rules
  rules_keep collect saves now [] round n m = m
  rules_keep collect saves now ((id, rule) ∷ rules) round n m =
      rules_keep collect saves now rules (evaluate collect saves now rule round) n
        (evaluate_keeps collect saves now rule round n m)

  rules_fire :
      (collect : Text → ℤ → Option F) (saves : Event F → Bool) (now : ℕ) (rules : Assoc (Rule F))
      (round : Round F) (id : Text) (rule : Rule F) (value : F)
      → lookup id rules ≡ some rule
      → Fires collect rule value
      → Sent (event_of now rule value, rule.channels) (evaluate_rules collect saves now rules round)
  unfolding evaluate_rules lookup
  rules_fire collect saves now [] round id rule value found fires = absurd (ground (arith, found))
  rules_fire collect saves now ((k, r) ∷ rules) round id rule value found fires =
      here (text_eq id k)
        (λ e.
          rules_fire collect saves now rules (evaluate collect saves now r round) id rule value e
            fires)
        found
    where
      rest : Round F
      rest = evaluate collect saves now r round

      here :
          (same : Bool)
          → (lookup id rules ≡ some rule
              → Sent
                  (event_of now rule value, rule.channels)
                  (evaluate_rules collect saves now rules rest))
          → (if same then some r else lookup id rules) ≡ some rule
          → Sent
              (event_of now rule value, rule.channels)
              (evaluate_rules collect saves now rules rest)
      here true again e =
          let is : r ≡ rule = ground (arith, e) in
          rules_keep collect saves now rules rest _
            (rw is (evaluate-Fires collect saves now rule round value fires))
      here false again e = again e

  rules-Sent :
      (collect : Text → ℤ → Option F) (saves : Event F → Bool) (now : ℕ) (rules : Assoc (Rule F))
      (round : Round F) (n : Event F × List Text)
      → IsDistinct rules
      → Sent n (evaluate_rules collect saves now rules round)
      → Sent n round
        ⊎ ((id : Text) × (rule : Rule F) × (lookup id rules ≡ some rule)
            × RaisedBy collect now rule n)
  unfolding evaluate_rules lookup
  rules-Sent collect saves now [] round n distinct m = inl m
  rules-Sent collect saves now ((k, r) ∷ rules) round n distinct m =
      elim (rules-Sent collect saves now rules (evaluate collect saves now r round) n distinct.1
        m) [
          | inl first ↦ elim (evaluate-Sent collect saves now r round n first) [
            | inl before ↦ inl before
            | inr by_r ↦ inr (k, r, rw text_eq_refl refl, by_r)
          ]
          | inr (id, rule, found, by_rule) ↦ inr (id, rule, later id rule found, by_rule)
        ]
    where
      later :
          (id : Text) (rule : Rule F)
          → lookup id rules ≡ some rule
          → (if text_eq id k then some r else lookup id rules) ≡ some rule
      later id rule found = elim (Bool-cases (text_eq id k)) [
        | inl same ↦
            let none_there : lookup id rules ≡ none = rw ((text_eq_iff id k).0 same) distinct.0 in
            absurd (ground (arith, found, none_there))
        | inr other ↦ rw other found
      ]

  active_iff :
      (o : Option (Rule F)) (rule : Rule F)
      → (active o ≡ some rule) ↔ ((o ≡ some rule) × (rule.enabled ≡ true))
  active_iff none rule = (λ e. absurd (ground (arith, e)), λ h. absurd (ground (arith, h.0)))
  active_iff (some r) rule = there r.enabled refl
    where
      there :
          (on : Bool)
          → r.enabled ≡ on
          → ((if on then some r else none) ≡ some rule)
            ↔ ((some r ≡ some rule) × (rule.enabled ≡ true))
      there true e = (λ h. (h, let same : r ≡ rule = ground (arith, h) in rw (← same) e), λ h. h.0)
      there false e = (
        λ h. absurd (ground (arith, h)),
        λ h.
            let same : r ≡ rule = ground (arith, h.0) in
            absurd (ground (arith, e, h.1, ap (λ (q : Rule F). q.enabled) same)),
      )

  -- A round that finds the memory in agreement with the table sends an event with its channels
  -- exactly for each enabled rule of the table whose metric is collected and above its threshold.
  pub evaluate_all_sent :
      (doc : Documented O) (collect : Text → ℤ → Option F) (saves : Event F → Bool) (now : ℕ)
      (e : Engine F) (n : Event F × List Text)
      → Agrees O doc e
      → Memᴰ n (evaluate_all collect saves now e).sent ↔ (
          (id : Text) × (rule : Rule F) × (stored_rule O doc e id ≡ some rule)
          × (value : F) × Fires collect rule value
          × (n ≡ (event_of now rule value, rule.channels)))
  unfolding evaluate_all Sent
  evaluate_all_sent doc collect saves now e n a = (
    λ m.
        elim (rules-Sent collect saves now e.rules (record { events = e.events; sent = [] }) n
          a.distinct_rules m) [
            | inl before ↦ elim before [ ]
            | inr (id, rule, found, (value, fires, same)) ↦ (
              id,
              rule,
              sym (a.same id) ∙ (active_iff (lookup id e.rules) rule).1 (found, fires.0),
              value,
              fires,
              same,
            )
          ],
    λ (id, rule, known, value, fires, same). rw same (
        rules_fire collect saves now e.rules (record { events = e.events; sent = [] }) id rule value
          ((active_iff (lookup id e.rules) rule).0 (a.same id ∙ known)).0 fires),
  )
