-- ===== src/Anomaly/Agree.antt =====
-- The engine's memory is a view of the table of rules.
use mathlib.Core.Option
use ykt_aisaas.Base.{
  ◌≡◌, refl, sym, ap, true, false, inl, inr, Bool-cases, Option, none, some, [], Text, text_eq,
  text_eq_iff, text_eq_refl, ◌∙◌, Assoc, lookup, put, remove, lookup-put, lookup-remove, IsDistinct,
  if◌then◌else◌, arith,
}
use ykt_aisaas.Anomaly.{
  Rule, RuleRow, Engine, Outside, Documented, of_ms, to_ms, text_or_empty, row_to_rule, row_of,
  written,
}

description_kept : (d : Text) → text_or_empty (if text_eq d [] then none else some d) ≡ d
description_kept d = elim (Bool-cases (text_eq d [])) [
  | inl empty ↦ rw empty (sym ((text_eq_iff d []).0 empty))
  | inr other ↦ rw other refl
]

-- What evaluation looks at: a rule that is there and enabled.
module _ {F : Type 0} where
  abbrev pub active : Option (Rule F) → Option (Rule F)
  active none = none
  active (some rule) = if rule.enabled then some rule else none

module _ {F : Type 0} (O : Outside F) (doc : Documented O) where
  open O use {marshal, unmarshal, affects, key_of, rounded}

  -- A rule as the table gives it back: its threshold as the column holds it, its window in whole
  -- milliseconds.
  abbrev pub as_stored : Rule F → Rule F
  as_stored rule = record rule {
    threshold = rounded rule.threshold;
    window = of_ms (to_ms rule.window);
  }

  pub row_to_rule-row_of : (rule : Rule F) → row_to_rule O (row_of O rule) ≡ as_stored rule
  unfolding row_to_rule row_of
  row_to_rule-row_of rule =
      rw
        (
          description_kept rule.description,
          doc.marshal-solid rule.channels,
          doc.unmarshal-marshal rule.channels,
        )
        refl

  pub row_to_rule-written :
      (rule : Rule F) (row : RuleRow F)
      → rule.id ≡ row.id
      → rule.tenant_id ≡ row.tenant_id
      → row_to_rule O (written O rule row) ≡ as_stored rule
  unfolding row_to_rule written
  row_to_rule-written rule row same_id same =
      rw (← same_id, ← same, doc.marshal-solid rule.channels, doc.unmarshal-marshal rule.channels)
        refl

  -- A row whose id is spelt as it is asked for
  unfoldable pub named : Text → Option (RuleRow F) → Option (RuleRow F)
  named id none = none
  named id (some row) = if text_eq row.id id then some row else none

  -- What the table says of a rule, if it is enabled.
  abbrev pub stored_rule : Engine F → Text → Option (Rule F)
  stored_rule e id = active (Option.map (row_to_rule O) (named id (lookup (key_of id) e.rows)))

  -- The rows stand under the weights of their ids.
  abbrev pub IsKeyed : Assoc (RuleRow F) → Type 0
  IsKeyed rows = (key : Text) (row : RuleRow F) → lookup key rows ≡ some row → key_of row.id ≡ key

  -- The memory's enabled rules are those of the table.
  pub record Agrees (e : Engine F) : Type 0 where
    pub distinct_rows : IsDistinct e.rows
    pub distinct_rules : IsDistinct e.rules
    pub same : (id : Text) → active (lookup id e.rules) ≡ stored_rule e id

  -- They are those of the table but for what the columns round off.
  pub record Follows (e : Engine F) : Type 0 where
    pub distinct_rows : IsDistinct e.rows
    pub distinct_rules : IsDistinct e.rules
    pub keyed : IsKeyed e.rows
    pub same : (id : Text) → active (Option.map as_stored (lookup id e.rules)) ≡ stored_rule e id

  pub put-IsKeyed :
      (rule_id : Text) (row : RuleRow F) (rows : Assoc (RuleRow F))
      → row.id ≡ rule_id
      → IsKeyed rows
      → IsKeyed (put (key_of rule_id) row rows)
  put-IsKeyed rule_id row rows own keyed key found h =
      elim (Bool-cases (text_eq key (key_of rule_id))) [
        | inl here ↦
            let is : row ≡ found =
              ground (arith, h, lookup-put key (key_of rule_id) row rows, here) in
            ap (λ (r : RuleRow F). key_of r.id) (sym is)
            ∙ ap key_of own
            ∙ sym ((text_eq_iff key (key_of rule_id)).0 here)
        | inr other ↦
            keyed key found (ground (arith, h, lookup-put key (key_of rule_id) row rows, other))
      ]

  pub remove-IsKeyed :
      (key' : Text) (rows : Assoc (RuleRow F)) → IsKeyed rows → IsKeyed (remove key' rows)
  remove-IsKeyed key' rows keyed key found h = elim (Bool-cases (text_eq key key')) [
    | inl here ↦ absurd (ground (arith, h, lookup-remove key key' rows, here))
    | inr other ↦ keyed key found (ground (arith, h, lookup-remove key key' rows, other))
  ]

  -- A row of another spelling is not the named one.
  pub named_other :
      (j rule_id : Text) (row : RuleRow F)
      → row.id ≡ rule_id
      → text_eq j rule_id ≡ false
      → named j (some row) ≡ none
  unfolding named
  named_other j rule_id row own other =
      let apart : text_eq rule_id j ≡ false =
        ground (arith, text_eq_iff rule_id j, text_eq_iff j rule_id, other) in
      rw (own, apart) refl

  pub named_own :
      (j rule_id : Text) (row : RuleRow F)
      → row.id ≡ rule_id
      → text_eq j rule_id ≡ true
      → named j (some row) ≡ some row
  unfolding named
  named_own j rule_id row own here = rw (own, (text_eq_iff j rule_id).0 here, text_eq_refl) refl
