-- ===== src/Anomaly/Writes.antt =====
-- What the engine's writes keep of its view of the table (AddRule, UpdateRule and RemoveRule of
-- engine.go).
use mathlib.Core.Option
use ykt_aisaas.Base.{
  ◌≡◌, refl, sym, ap, Bool, true, false, inl, inr, Bool-cases, Option, none, some, [], Text,
  text_eq, text_eq_iff, text_eq_refl, ◌∙◌, Assoc, lookup, put, remove, lookup-put, lookup-remove,
  IsDistinct, put-IsDistinct, remove-IsDistinct, if◌then◌else◌,
}
use ykt_aisaas.Anomaly.{
  Rule, RuleRow, Engine, Outside, Documented, row_to_rule, row_of, inserted, add_rule, written,
  cache_updated, updated, update_rule, removed, remove_rule, is_valid_rule_type, is_valid_severity,
}
use ykt_aisaas.Anomaly.Agree.{
  active, as_stored, named, Follows, put-IsKeyed, remove-IsKeyed, named_other, named_own,
  row_to_rule-row_of, row_to_rule-written,
}

module _ {F : Type 0} (O : Outside F) (doc : Documented O) where
  open O use {marshal, unmarshal, affects, key_of, rounded}

  -- A write of one rule to both, where the memory's view changes at that rule alone, and no row of
  -- another spelling gives way.
  write-Follows :
      (e : Engine F) (rule : Rule F) (row : RuleRow F) (rules : Assoc (Rule F))
      → Follows O doc e
      → row_to_rule O row ≡ as_stored O doc rule
      → row.id ≡ rule.id
      → ((j : Text)
          → text_eq j rule.id ≡ false
          → named O doc j (lookup (key_of rule.id) e.rows) ≡ none)
      → IsDistinct rules
      → ((j : Text)
          → active (Option.map (as_stored O doc) (lookup j rules)) ≡ (
              if text_eq j rule.id
              then active (some (as_stored O doc rule))
              else active (Option.map (as_stored O doc) (lookup j e.rules))))
      → Follows O doc (record e { rows = put (key_of rule.id) row e.rows; rules = rules })
  write-Follows e rule row rules a reads own room distinct view = record {
    distinct_rows = put-IsDistinct (key_of rule.id) row e.rows a.distinct_rows;
    distinct_rules = distinct;
    keyed = put-IsKeyed O doc rule.id row e.rows own a.keyed;
    same = same;
  }
    where
      same :
          (j : Text)
          → active (Option.map (as_stored O doc) (lookup j rules))
            ≡ active (
                Option.map
                  (row_to_rule O)
                  (named O doc j (lookup (key_of j) (put (key_of rule.id) row e.rows))))
      same j = elim (Bool-cases (text_eq j rule.id)) [
        | inl here ↦
            let key : text_eq (key_of j) (key_of rule.id) ≡ true =
              rw ((text_eq_iff j rule.id).0 here) (text_eq_refl (key_of rule.id)) in
            rw
              (
                view j,
                lookup-put (key_of j) (key_of rule.id) row e.rows,
                here,
                key,
                named_own O doc j rule.id row own here,
                reads,
              )
              refl
        | inr other ↦ elim (Bool-cases (text_eq (key_of j) (key_of rule.id))) [
          | inl key ↦
              let before : active (Option.map (as_stored O doc) (lookup j e.rules)) ≡ none =
                a.same j
                ∙ ap (λ k. active (Option.map (row_to_rule O) (named O doc j (lookup k e.rows))))
                    ((text_eq_iff (key_of j) (key_of rule.id)).0 key)
                ∙ ap (λ o. active (Option.map (row_to_rule O) o)) (room j other) in
              rw
                (
                  view j,
                  lookup-put (key_of j) (key_of rule.id) row e.rows,
                  other,
                  key,
                  named_other O doc j rule.id row own other,
                )
                before
          | inr apart ↦
              rw (view j, lookup-put (key_of j) (key_of rule.id) row e.rows, other, apart)
                (a.same j)
        ]
      ]

  put_view :
      (rule : Rule F) (rules : Assoc (Rule F)) (j : Text)
      → active (Option.map (as_stored O doc) (lookup j (put rule.id rule rules))) ≡ (
          if text_eq j rule.id
          then active (some (as_stored O doc rule))
          else active (Option.map (as_stored O doc) (lookup j rules)))
  put_view rule rules j = elim (Bool-cases (text_eq j rule.id)) [
    | inl here ↦ rw (lookup-put j rule.id rule rules, here) refl
    | inr other ↦ rw (lookup-put j rule.id rule rules, other) refl
  ]

  remove_view :
      (rule : Rule F) (rules : Assoc (Rule F)) (j : Text)
      → rule.enabled ≡ false
      → active (Option.map (as_stored O doc) (lookup j (remove rule.id rules))) ≡ (
          if text_eq j rule.id
          then active (some (as_stored O doc rule))
          else active (Option.map (as_stored O doc) (lookup j rules)))
  remove_view rule rules j off = elim (Bool-cases (text_eq j rule.id)) [
    | inl here ↦ rw (lookup-remove j rule.id rules, here, off) refl
    | inr other ↦ rw (lookup-remove j rule.id rules, other) refl
  ]

  inserted-Follows :
      (stored : Bool) (rule : Rule F) (found : Option (RuleRow F)) (e : Engine F)
      → lookup (key_of rule.id) e.rows ≡ found
      → Follows O doc e
      → Follows O doc (inserted O stored rule found e).1
  unfolding inserted
  inserted-Follows false rule found e looked a = a
  inserted-Follows true rule (some row) e looked a = a
  inserted-Follows true rule none e looked a =
      write-Follows e rule (row_of O rule) (put rule.id rule e.rules) a
        (row_to_rule-row_of O doc rule) (unfold row_of in refl)
        (λ j other. ap (named O doc j) looked ∙ (unfold named in refl))
        (put-IsDistinct rule.id rule e.rules a.distinct_rules) (put_view rule e.rules)

  pub add_rule-Follows :
      (stored : Bool) (rule : Rule F) (e : Engine F)
      → Follows O doc e
      → Follows O doc (add_rule O stored rule e).1
  unfolding add_rule
  add_rule-Follows stored rule e a = elim (Bool-cases (text_eq rule.id [])) [
    | inl empty ↦ rw empty a
    | inr given ↦ elim (Bool-cases (is_valid_rule_type rule.rule_type)) [
      | inr bad ↦ rw (given, bad) a
      | inl typed ↦ elim (Bool-cases (is_valid_severity rule.severity)) [
        | inr bad ↦ rw (given, typed, bad) a
        | inl ok ↦
            rw (given, typed, ok)
              (inserted-Follows stored rule (lookup (key_of rule.id) e.rows) e refl a)
      ]
    ]
  ]

  cache_updated-Follows :
      (rule : Rule F) (row row' : RuleRow F) (e : Engine F)
      → lookup (key_of rule.id) e.rows ≡ some row
      → row.id ≡ rule.id
      → row_to_rule O row' ≡ as_stored O doc rule
      → row'.id ≡ rule.id
      → Follows O doc e
      → Follows O doc (record e {
        rows = put (key_of rule.id) row' e.rows;
        rules = cache_updated O rule e.rules;
      })
  unfolding cache_updated
  cache_updated-Follows rule row row' e looked own reads own' a = elim (Bool-cases rule.enabled) [
    | inl on ↦ simp (on) (
        write-Follows e rule row' (put rule.id rule e.rules) a reads own' room
          (put-IsDistinct rule.id rule e.rules a.distinct_rules) (put_view rule e.rules))
    | inr off ↦ simp (off) (
        write-Follows e rule row' (remove rule.id e.rules) a reads own' room
          (remove-IsDistinct rule.id e.rules a.distinct_rules)
          (λ j. remove_view rule e.rules j off))
  ]
    where
      room :
          (j : Text)
          → text_eq j rule.id ≡ false
          → named O doc j (lookup (key_of rule.id) e.rows) ≡ none
      room j other = ap (named O doc j) looked ∙ named_other O doc j rule.id row own other

  -- A row that the UPDATE leaves as it was.
  rewrite-Follows :
      (key : Text) (row : RuleRow F) (e : Engine F)
      → lookup key e.rows ≡ some row
      → Follows O doc e
      → Follows O doc (record e { rows = put key row e.rows })
  rewrite-Follows key row e found a = record {
    distinct_rows = put-IsDistinct key row e.rows a.distinct_rows;
    distinct_rules = a.distinct_rules;
    keyed = λ k r h. a.keyed k r (sym (unchanged k) ∙ h);
    same = λ j.
        a.same j
        ∙ ap (λ o. active (Option.map (row_to_rule O) (named O doc j o)))
            (sym (unchanged (key_of j)));
  }
    where
      unchanged : (k : Text) → lookup k (put key row e.rows) ≡ lookup k e.rows
      unchanged k = elim (Bool-cases (text_eq k key)) [
        | inl here ↦ rw (lookup-put k key row e.rows, here, (text_eq_iff k key).0 here, found) refl
        | inr other ↦ rw (lookup-put k key row e.rows, other) refl
      ]

  updated-Follows :
      (stored : Bool) (rule : Rule F) (found : Option (RuleRow F)) (e : Engine F)
      → lookup (key_of rule.id) e.rows ≡ found
      → ((row : RuleRow F)
          → found ≡ some row
          → (rule.id ≡ row.id) × (rule.tenant_id ≡ row.tenant_id))
      → Follows O doc e
      → Follows O doc (updated O stored rule found e).1
  unfolding updated
  updated-Follows false rule found e looked own a = a
  updated-Follows true rule none e looked own a = a
  updated-Follows true rule (some row) e looked own a =
      let (same_id, same_tenant) = own row refl in
      elim (Bool-cases (affects row (written O rule row))) [
        | inl changed ↦ rw changed (
            cache_updated-Follows rule row (written O rule row) e looked (sym same_id)
              (row_to_rule-written O doc rule row same_id same_tenant)
              (unfold written in sym same_id) a)
        | inr unchanged ↦
            rw (unchanged, doc.affects_changed row (written O rule row) unchanged)
              (rewrite-Follows (key_of rule.id) row e looked a)
      ]

  pub update_rule-Follows :
      (stored : Bool) (rule : Rule F) (e : Engine F)
      → ((row : RuleRow F)
          → lookup (key_of rule.id) e.rows ≡ some row
          → (rule.id ≡ row.id) × (rule.tenant_id ≡ row.tenant_id))
      → Follows O doc e
      → Follows O doc (update_rule O stored rule e).1
  unfolding update_rule
  update_rule-Follows stored rule e own a = elim (Bool-cases (text_eq rule.id [])) [
    | inl empty ↦ rw empty a
    | inr given ↦
        rw given (updated-Follows stored rule (lookup (key_of rule.id) e.rows) e refl own a)
  ]

  -- Whether a row, if there is one, has the id as it is asked for.
  unfoldable pub is_spelt : Text → Option (RuleRow F) → Bool
  is_spelt id none = true
  is_spelt id (some row) = text_eq row.id id

  removed-Follows :
      (stored : Bool) (id : Text) (found : Option (RuleRow F)) (e : Engine F)
      → lookup (key_of id) e.rows ≡ found
      → is_spelt id found ≡ true
      → Follows O doc e
      → Follows O doc (removed O stored id found e).1
  unfolding removed is_spelt
  removed-Follows false id found e looked spelt a = a
  removed-Follows true id none e looked spelt a = a
  removed-Follows true id (some row) e looked spelt a = record {
    distinct_rows = remove-IsDistinct (key_of id) e.rows a.distinct_rows;
    distinct_rules = remove-IsDistinct id e.rules a.distinct_rules;
    keyed = remove-IsKeyed O doc (key_of id) e.rows a.keyed;
    same = same;
  }
    where
      same :
          (j : Text)
          → active (Option.map (as_stored O doc) (lookup j (remove id e.rules)))
            ≡ active (
                Option.map
                  (row_to_rule O)
                  (named O doc j (lookup (key_of j) (remove (key_of id) e.rows))))
      same j = elim (Bool-cases (text_eq j id)) [
        | inl here ↦
            let key : text_eq (key_of j) (key_of id) ≡ true =
              rw ((text_eq_iff j id).0 here) (text_eq_refl (key_of id)) in
            rw (lookup-remove (key_of j) (key_of id) e.rows, lookup-remove j id e.rules, here, key)
              (unfold named in refl)
        | inr other ↦ elim (Bool-cases (text_eq (key_of j) (key_of id))) [
          | inl key ↦
              let own : row.id ≡ id = (text_eq_iff row.id id).0 spelt in
              let before : active (Option.map (as_stored O doc) (lookup j e.rules)) ≡ none =
                a.same j
                ∙ ap (λ k. active (Option.map (row_to_rule O) (named O doc j (lookup k e.rows))))
                    ((text_eq_iff (key_of j) (key_of id)).0 key)
                ∙ ap (λ o. active (Option.map (row_to_rule O) (named O doc j o))) looked
                ∙ ap (λ o. active (Option.map (row_to_rule O) o))
                    (named_other O doc j id row own other) in
              rw
                (
                  lookup-remove (key_of j) (key_of id) e.rows,
                  lookup-remove j id e.rules,
                  other,
                  key,
                )
                (unfold named in before)
          | inr apart ↦
              rw
                (
                  lookup-remove (key_of j) (key_of id) e.rows,
                  lookup-remove j id e.rules,
                  other,
                  apart,
                )
                (a.same j)
        ]
      ]

  pub remove_rule-Follows :
      (stored : Bool) (id : Text) (e : Engine F)
      → is_spelt id (lookup (key_of id) e.rows) ≡ true
      → Follows O doc e
      → Follows O doc (remove_rule O stored id e).1
  unfolding remove_rule
  remove_rule-Follows stored id e spelt a =
      removed-Follows stored id (lookup (key_of id) e.rows) e refl spelt a
