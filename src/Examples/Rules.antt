-- ===== src/Examples/Rules.antt =====
-- The theorems on the rules of anomaly detection, with numbers for float64: a rule is created,
-- disabled and enabled again, and the process restarts.
use mathlib.Core.List.{Memᴰ}
use ykt_aisaas.Base.{
  ℕ, zero, suc, ◌+◌, ◌&&◌, if◌then◌else◌, put, ◌≡◌, ◌↔◌, refl, ap, true, false, none, some, List,
  [], ◌∷◌, Text, lookup, codes, text_eq, ltb, decimal, pos, arith,
}
use ykt_aisaas.Database.{scope}
use ykt_aisaas.Anomaly.{
  Rule, Event, Engine, Outside, Documented, restart, add_rule, row_of, get_rule, readable,
  update_rule, written, row_to_rule, is_valid_rule_type, is_valid_severity, in_scope, of_ms, to_ms,
}
use ykt_aisaas.Anomaly.Requests.{
  UpdateRuleReq, CreateRuleReq, Request, create, change, delete, perform, perform_all, create_rule,
  new_rule, change_rule, change_existing, changed_rule,
}
use ykt_aisaas.Anomaly.Agree.{Agrees, Follows, named, stored_rule}
use ykt_aisaas.Anomaly.Writes.{is_spelt}
use ykt_aisaas.Anomaly.Served.{AllSpelt, perform_all-Follows, restart_outcome}
use ykt_aisaas.Anomaly.Evaluation.{evaluate_all, evaluate_all_sent, event_of, Fires}

-- A code for lists of texts: each text ends with a zero, and its runes are one more.
encode_text : Text → Text → Text
encode_text [] rest = 0 ∷ rest
encode_text (c ∷ t) rest = suc c ∷ encode_text t rest

encode_all : List Text → Text
unfolding encode_text
encode_all [] = []
encode_all (t ∷ ts) = encode_text t (encode_all ts)

onto_first : ℕ → List Text → List Text
onto_first c [] = (c ∷ []) ∷ []
onto_first c (t ∷ ts) = (c ∷ t) ∷ ts

decode_all : Text → List Text
unfolding onto_first
decode_all [] = []
decode_all (zero ∷ s) = [] ∷ decode_all s
decode_all (suc c ∷ s) = onto_first c (decode_all s)

decode_tail : Text → List Text
unfolding decode_all
decode_tail [] = []
decode_tail (c ∷ s) = decode_all s

decode_text : (t : Text) (rest : Text) → decode_all (encode_text t rest) ≡ t ∷ decode_all rest
unfolding decode_all encode_text onto_first
decode_text [] rest = refl
decode_text (c ∷ t) rest = ap (onto_first c) (decode_text t rest)

decode-encode : (ts : List Text) → decode_all (encode_all ts) ≡ ts
unfolding encode_all
decode-encode [] = unfold decode_all in refl
decode-encode (t ∷ ts) = rw (decode_text t (encode_all ts), decode-encode ts) refl

-- A collation that does not tell capitals from small letters
lower : Text → Text
lower [] = []
lower (c ∷ s) = (if ltb 64 c && ltb c 91 then c + 32 else c) ∷ lower s

abbrev numbers : Outside ℕ
numbers = record {
  marshal = λ ts. 1 ∷ encode_all ts;
  unmarshal = decode_tail;
  affects = λ old new. true;
  exceeds = λ value threshold. ltb threshold value;
  message_of = λ name value threshold. name;
  same_tenant = λ text tid. text_eq text (decimal tid);
  key_of = lower;
  rounded = λ x. x;
}

numbers-Documented : Documented numbers
unfolding decode_tail text_eq
numbers-Documented = record {
  marshal-solid = λ channels. refl;
  unmarshal-marshal = decode-encode;
  affects_changed = λ old new h. absurd (ground (arith, h));
}

abbrev unchanged : UpdateRuleReq ℕ
unchanged = record {
  name = [];
  description = [];
  rule_type = [];
  metric = [];
  threshold = none;
  window_size_ms = none;
  severity = [];
  channels = none;
  enabled = none;
}

abbrev cost_rule : CreateRuleReq ℕ
cost_rule = record {
  id = codes "r1";
  tenant_id = codes "7";
  name = codes "cost";
  description = [];
  rule_type = codes "cost_anomaly";
  metric = codes "cost";
  threshold = 100;
  window_size_ms = pos 60000;
  severity = [];
  channels = codes "mail" ∷ [];
  enabled = none;
}

abbrev day : List (Request numbers)
day =
    create true cost_rule
    ∷ change true true 7 (codes "r1") (record unchanged { enabled = some false })
    ∷ change true true 7 (codes "r1")
        (record unchanged { enabled = some true; threshold = some 50 })
    ∷ create false (record cost_rule { id = codes "r2" })
    ∷ delete true (codes "r3")
    ∷ []

abbrev empty_engine : Engine ℕ
empty_engine = record { rows = []; rules = []; events = [] }

empty-Follows : Follows numbers numbers-Documented empty_engine
unfolding lookup named
empty-Follows = record {
  distinct_rows = tt;
  distinct_rules = tt;
  keyed = λ key row h. absurd (ground (arith, h));
  same = λ id. refl;
}

-- The deleted rule is not there.
day-AllSpelt : AllSpelt numbers numbers-Documented false day empty_engine
unfolding perform create_rule add_rule new_rule row_of change_rule change_existing get_rule readable
    update_rule changed_rule written row_to_rule lookup put text_eq is_spelt lower
    is_valid_rule_type is_valid_severity scope in_scope of_ms to_ms decimal
day-AllSpelt = (tt, (tt, (tt, (tt, (refl, tt)))))

day-Follows : Follows numbers numbers-Documented (perform_all numbers false day empty_engine)
day-Follows =
    perform_all-Follows numbers numbers-Documented false day empty_engine day-AllSpelt empty-Follows

perform_all-Follows_example :
    Follows numbers numbers-Documented (perform_all numbers false day empty_engine)
perform_all-Follows_example =
    perform_all-Follows numbers numbers-Documented false day empty_engine day-AllSpelt empty-Follows

abbrev after_day : Engine ℕ
after_day = perform_all numbers false day empty_engine

abbrev cost_notice : Event ℕ × List Text
cost_notice = (
  record {
    rule_id = codes "r1";
    tenant_id = codes "7";
    triggered_at = 5;
    metric_value = 70;
    severity = codes "warn";
    message = codes "cost";
    notified = false;
  },
  codes "mail" ∷ [],
)

restart_outcome_example :
    Agrees numbers numbers-Documented (restart numbers true true after_day)
    × ((restart numbers true false after_day).rules ≡ [])
    × ((evaluate_all numbers
          (λ metric window. some 70)
          (λ event. true)
          5
          (restart numbers true false after_day)).sent
        ≡ [])
restart_outcome_example =
    restart_outcome numbers numbers-Documented after_day true (λ metric window. some 70)
      (λ event. true) 5 day-Follows.distinct_rows day-Follows.keyed

abbrev restarted : Engine ℕ
restarted = restart numbers true true after_day

restarted-Agrees : Agrees numbers numbers-Documented restarted
restarted-Agrees =
    (restart_outcome numbers numbers-Documented after_day true (λ metric window. some 70)
      (λ event. true) 5 day-Follows.distinct_rows day-Follows.keyed).0

evaluate_all_sent_example :
    Memᴰ cost_notice
      (evaluate_all numbers (λ metric window. some 70) (λ event. true) 5 restarted).sent
    ↔ ((id : Text) × (rule : Rule ℕ) × (stored_rule numbers numbers-Documented restarted id
          ≡ some rule)
        × (value : ℕ) × Fires numbers (λ metric window. some 70) rule value
        × (cost_notice ≡ (event_of numbers 5 rule value, rule.channels)))
evaluate_all_sent_example =
    evaluate_all_sent numbers numbers-Documented (λ metric window. some 70) (λ event. true) 5
      restarted cost_notice restarted-Agrees
