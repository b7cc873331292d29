-- ===== src/Anomaly/Served.antt =====
-- The engine's memory stays a view of the table under the requests of the API, and what a restart
-- does to it.
use mathlib.Core.Option
use ykt_aisaas.Database.{Scope, every_row, scope}
use ykt_aisaas.Base.{
  ℕ, ◌≡◌, refl, ap, ◌∙◌, Bool, true, false, inl, inr, Bool-cases, Option, none, some, List, [], ◌∷◌,
  Text, text_eq, text_eq_iff, text_eq_refl, ℤ, Assoc, lookup, put, lookup-put, IsDistinct,
  put-IsDistinct, if◌then◌else◌, arith,
}
use ykt_aisaas.Anomaly.{
  Rule, RuleRow, Event, Engine, Outside, Documented, row_to_rule, in_scope, readable, load_rows,
  load_rules, restart, get_rule,
}
use ykt_aisaas.Anomaly.Requests.{
  UpdateRuleReq, new_rule, changed_rule, create_rule, change_existing, change_rule, Request, create,
  change, delete, perform, perform_all,
}
use ykt_aisaas.Anomaly.Evaluation.{evaluate_all, evaluate_rules}
use ykt_aisaas.Anomaly.Agree.{active, named, IsKeyed, Agrees, Follows, named_own, named_other}
use ykt_aisaas.Anomaly.Writes.{is_spelt, add_rule-Follows, update_rule-Follows, remove_rule-Follows}

module _ {F : Type 0} (O : Outside F) (doc : Documented O) where
  open O use {key_of}

  -- What the table says of a rule where it says something enabled, and else what stood before.
  or_before : Option (RuleRow F) → Option (Rule F) → Option (Rule F)
  or_before none before = before
  or_before (some row) before = if row.enabled then some (row_to_rule O row) else before

  loaded_rule : RuleRow F → Assoc (Rule F) → Assoc (Rule F)
  loaded_rule row rules = if row.enabled then put row.id (row_to_rule O row) rules else rules

  lookup-loaded_rule :
      (row : RuleRow F) (rules : Assoc (Rule F)) (j : Text)
      → lookup j (loaded_rule row rules)
        ≡ (if text_eq j row.id then or_before (some row) (lookup j rules) else lookup j rules)
  unfolding loaded_rule or_before
  lookup-loaded_rule row rules j = elim (Bool-cases row.enabled) [
    | inl on ↦ elim (Bool-cases (text_eq j row.id)) [
      | inl here ↦ simp (on, lookup-put j row.id (row_to_rule O row) rules, here) refl
      | inr other ↦ simp (on, lookup-put j row.id (row_to_rule O row) rules, other) refl
    ]
    | inr off ↦ elim (Bool-cases (text_eq j row.id)) [
      | inl here ↦ simp (off, here) refl
      | inr other ↦ simp (off, other) refl
    ]
  ]

  tail-IsKeyed :
      (key : Text) (row : RuleRow F) (rows : Assoc (RuleRow F))
      → lookup key rows ≡ none
      → IsKeyed O doc ((key, row) ∷ rows)
      → IsKeyed O doc rows
  unfolding lookup
  tail-IsKeyed key row rows fresh keyed k r h = elim (Bool-cases (text_eq k key)) [
    | inl here ↦
        let gone : lookup k rows ≡ none = rw ((text_eq_iff k key).0 here) fresh in
        absurd (ground (arith, h, gone))
    | inr other ↦ keyed k r (rw other h)
  ]

  lookup-load_rows :
      (rows : Assoc (RuleRow F)) (rules : Assoc (Rule F)) (j : Text)
      → IsDistinct rows
      → IsKeyed O doc rows
      → lookup j (load_rows O every_row rows rules)
        ≡ or_before (named O doc j (lookup (key_of j) rows)) (lookup j rules)
  unfolding load_rows lookup in_scope loaded_rule
  lookup-load_rows [] rules j distinct keyed = unfold or_before in unfold named in refl
  lookup-load_rows ((key, row) ∷ rows) rules j distinct keyed =
      lookup-load_rows rows (loaded_rule row rules) j distinct.1
        (tail-IsKeyed key row rows distinct.0 keyed)
      ∙ (ap (or_before (named O doc j (lookup (key_of j) rows))) (lookup-loaded_rule row rules j)
          ∙ one (keyed key row (rw (text_eq_refl key) refl)))
    where
      one :
          key_of row.id ≡ key
          → or_before
              (named O doc j (lookup (key_of j) rows))
              (if text_eq j row.id then or_before (some row) (lookup j rules) else lookup j rules)
            ≡ or_before
                (named O doc j
                  (if text_eq (key_of j) key then some row else lookup (key_of j) rows))
                (lookup j rules)
      one own = elim (Bool-cases (text_eq j row.id)) [
        | inl here ↦
            let at : key_of j ≡ key = ap key_of ((text_eq_iff j row.id).0 here) ∙ own in
            rw (at, text_eq_refl key, distinct.0, here, named_own O doc j row.id row refl here)
              (unfold named in unfold or_before in refl)
        | inr other ↦ elim (Bool-cases (text_eq (key_of j) key)) [
          | inl same_key ↦
              rw
                (
                  other,
                  same_key,
                  (text_eq_iff (key_of j) key).0 same_key,
                  distinct.0,
                  named_other O doc j row.id row refl other,
                )
                (unfold named in refl)
          | inr apart ↦ rw (other, apart) refl
        ]
      ]

  load_rows-IsDistinct :
      (rows : Assoc (RuleRow F)) (rules : Assoc (Rule F))
      → IsDistinct rules
      → IsDistinct (load_rows O every_row rows rules)
  unfolding load_rows
  load_rows-IsDistinct [] rules h = h
  load_rows-IsDistinct ((key, row) ∷ rows) rules h = load_rows-IsDistinct rows _ (one row.enabled)
    where
      one : (on : Bool) → IsDistinct (if on then put row.id (row_to_rule O row) rules else rules)
      one true = put-IsDistinct row.id (row_to_rule O row) rules h
      one false = h

  or_before-none :
      (row : Option (RuleRow F))
      → active (or_before row none) ≡ active (Option.map (row_to_rule O) row)
  unfolding or_before row_to_rule
  or_before-none none = refl
  or_before-none (some row) = elim (Bool-cases row.enabled) [
    | inl on ↦ rw on refl
    | inr off ↦ rw off refl
  ]

  restarted-Agrees :
      (e : Engine F)
      → IsDistinct e.rows
      → IsKeyed O doc e.rows
      → Agrees O doc (restart O true true e)
  unfolding restart load_rules scope lookup
  restarted-Agrees e distinct keyed = record {
    distinct_rows = distinct;
    distinct_rules = load_rows-IsDistinct e.rows [] tt;
    same = λ j.
        ap active (lookup-load_rows e.rows [] j distinct keyed)
        ∙ or_before-none (named O doc j (lookup (key_of j) e.rows));
  }

  -- After a restart whose statement succeeds the enabled rules of the memory are those of the table,
  -- each as its row has it, where the configuration exempts the table from the tenant plugin. Where it
  -- does not, the memory is empty whatever the table holds and whatever stood in the memory before,
  -- and a round sends nothing.
  pub restart_outcome :
      (e : Engine F) (stored : Bool) (collect : Text → ℤ → Option F) (saves : Event F → Bool)
      (now : ℕ)
      → IsDistinct e.rows
      → IsKeyed O doc e.rows
      → Agrees O doc (restart O true true e)
        × ((restart O stored false e).rules ≡ [])
        × ((evaluate_all O collect saves now (restart O stored false e)).sent ≡ [])
  unfolding restart load_rules scope evaluate_all evaluate_rules
  restart_outcome e stored collect saves now distinct keyed =
      (unfold restart in restarted-Agrees e distinct keyed, refl, refl)

  change_existing-Follows :
      (stored : Bool) (id : Text) (req : UpdateRuleReq F) (found : Option (RuleRow F))
      (e : Engine F)
      → lookup (key_of id) e.rows ≡ found
      → Follows O doc e
      → Follows O doc (change_existing O stored req (Option.map (row_to_rule O) found) e).1
  unfolding change_existing changed_rule row_to_rule
  change_existing-Follows stored id req none e looked a = a
  change_existing-Follows stored id req (some row) e looked a =
      update_rule-Follows O doc stored (changed_rule req (row_to_rule O row)) e own a
    where
      at : lookup (key_of row.id) e.rows ≡ some row
      at = ap (λ k. lookup k e.rows) (a.keyed (key_of id) row looked) ∙ looked

      own :
          (other : RuleRow F)
          → lookup (key_of row.id) e.rows ≡ some other
          → (row.id ≡ other.id) × (row.tenant_id ≡ other.tenant_id)
      own other h =
          let same : row ≡ other = ground (arith, at, h) in
          (ap (λ (r : RuleRow F). r.id) same, ap (λ (r : RuleRow F). r.tenant_id) same)

  -- A caller who may not see the row changes nothing.
  seen-Follows :
      (stored : Bool) (sc : Scope) (id : Text) (req : UpdateRuleReq F) (found : Option (RuleRow F))
      (e : Engine F)
      → lookup (key_of id) e.rows ≡ found
      → Follows O doc e
      → Follows O doc
          (change_existing O stored req (Option.map (row_to_rule O) (readable O sc found)) e).1
  unfolding readable
  seen-Follows stored sc id req none e looked a = unfold change_existing in a
  seen-Follows stored sc id req (some row) e looked a = elim (Bool-cases (in_scope O sc row)) [
    | inl seen ↦ rw seen (change_existing-Follows stored id req (some row) e looked a)
    | inr hidden ↦ rw hidden (unfold change_existing in a)
  ]

  change_rule-Follows :
      (exempt answers stored : Bool) (tid : ℕ) (id : Text) (req : UpdateRuleReq F) (e : Engine F)
      → Follows O doc e
      → Follows O doc (change_rule O exempt answers stored tid id req e).1
  unfolding change_rule get_rule
  change_rule-Follows exempt true stored tid id req e a =
      seen-Follows stored (scope exempt false (some tid)) id req (lookup (key_of id) e.rows) e refl
        a
  change_rule-Follows exempt false stored tid id req e a = unfold change_existing in a

  -- A deletion names its rule, if the table has it, as the table spells it.
  abbrev pub IsSpelt : Request O → Engine F → Type 0
  IsSpelt (create stored req) e = Unit
  IsSpelt (change answers stored tid id req) e = Unit
  IsSpelt (delete stored id) e = is_spelt O doc id (lookup (key_of id) e.rows) ≡ true

  abbrev pub AllSpelt : Bool → List (Request O) → Engine F → Type 0
  AllSpelt exempt [] e = Unit
  AllSpelt exempt (r ∷ rs) e = IsSpelt r e × AllSpelt exempt rs (perform O exempt r e)

  perform-Follows :
      (exempt : Bool) (r : Request O) (e : Engine F)
      → IsSpelt r e
      → Follows O doc e
      → Follows O doc (perform O exempt r e)
  unfolding perform
  perform-Follows exempt (create stored req) e spelt a =
      unfold create_rule in add_rule-Follows O doc stored (new_rule req) e a
  perform-Follows exempt (change answers stored tid id req) e spelt a =
      change_rule-Follows exempt answers stored tid id req e a
  perform-Follows exempt (delete stored id) e spelt a =
      remove_rule-Follows O doc stored id e spelt a

  -- Under any requests that create, change and delete rules one after another, by callers of any
  -- tenants, whichever of their statements fail, where each deletion spells its rule's id as the table
  -- does, the enabled rules in the engine's memory stay those that the table has, each with the fields
  -- of its row once its threshold is rounded as the column does and its window cut to milliseconds.
  pub perform_all-Follows :
      (exempt : Bool) (rs : List (Request O)) (e : Engine F)
      → AllSpelt exempt rs e
      → Follows O doc e
      → Follows O doc (perform_all O exempt rs e)
  unfolding perform_all
  perform_all-Follows exempt [] e spelt a = a
  perform_all-Follows exempt (r ∷ rs) e spelt a =
      perform_all-Follows exempt rs (perform O exempt r e) spelt.1
        (perform-Follows exempt r e spelt.0 a)
