-- ===== src/Anomaly/Requests.antt =====
-- internal/server/apiv1/anomaly.go: CreateRule, UpdateRule and DeleteRule, from the request that the
-- binding of JSON gives. Each gives the error of the engine, or none.
use ykt_aisaas.Database.{scope}
use ykt_aisaas.Base.{
  ℕ, Bool, true, false, Option, none, some, List, [], ◌∷◌, Text, codes, text_eq, ℤ, if◌then◌else◌,
}
use ykt_aisaas.Anomaly.{
  Rule, Engine, EngineError, rule_not_found, Outside, of_ms, add_rule, update_rule, remove_rule,
  get_rule,
}

pub record CreateRuleReq (F : Type 0) : Type 0 where
  pub id : Text
  pub tenant_id : Text
  pub name : Text
  pub description : Text
  pub rule_type : Text
  pub metric : Text
  pub threshold : F
  pub window_size_ms : ℤ
  pub severity : Text
  pub channels : List Text
  pub enabled : Option Bool

pub record UpdateRuleReq (F : Type 0) : Type 0 where
  pub name : Text
  pub description : Text
  pub rule_type : Text
  pub metric : Text
  pub threshold : Option F
  pub window_size_ms : Option ℤ
  pub severity : Text
  pub channels : Option (List Text)
  pub enabled : Option Bool

abbrev pub given {ℓ} : {A : Type ℓ} → Option A → A → A
given none a = a
given (some b) a = b

-- `if req.Name != "" { existing.Name = req.Name }`
abbrev pub given_text : Text → Text → Text
given_text new old = if text_eq new [] then old else new

abbrev pub given_window : Option ℤ → ℤ → ℤ
given_window none window = window
given_window (some ms) window = of_ms ms

module _ {F : Type 0} where
  -- The rule of CreateRule
  unfoldable pub new_rule : CreateRuleReq F → Rule F
  unfolding of_ms
  new_rule req = record {
    id = req.id;
    tenant_id = req.tenant_id;
    name = req.name;
    description = req.description;
    rule_type = req.rule_type;
    metric = req.metric;
    threshold = req.threshold;
    window = of_ms req.window_size_ms;
    severity = given_text req.severity (codes "warn");
    enabled = given req.enabled true;
    channels = req.channels;
  }

  -- The partial update of UpdateRule
  unfoldable pub changed_rule : UpdateRuleReq F → Rule F → Rule F
  unfolding of_ms
  changed_rule req existing = record existing {
    name = given_text req.name existing.name;
    description = given_text req.description existing.description;
    rule_type = given_text req.rule_type existing.rule_type;
    metric = given_text req.metric existing.metric;
    threshold = given req.threshold existing.threshold;
    window = given_window req.window_size_ms existing.window;
    severity = given_text req.severity existing.severity;
    channels = given req.channels existing.channels;
    enabled = given req.enabled existing.enabled;
  }

module _ {F : Type 0} (O : Outside F) where
  -- CreateRule
  unfoldable pub create_rule : Bool → CreateRuleReq F → Engine F → Option EngineError × Engine F
  unfolding add_rule new_rule
  create_rule stored req e = add_rule O stored (new_rule req) e

  unfoldable pub change_existing :
      Bool → UpdateRuleReq F → Option (Rule F) → Engine F → Option EngineError × Engine F
  unfolding update_rule changed_rule
  change_existing stored req none e = (some rule_not_found, e)
  change_existing stored req (some existing) e = update_rule O stored (changed_rule req existing) e

  -- UpdateRule, for a caller of the tenant `tid`; `answers` and `stored` say whether the SELECT and
  -- the UPDATE succeed.
  unfoldable pub change_rule :
      Bool → Bool → Bool → ℕ → Text → UpdateRuleReq F → Engine F → Option EngineError × Engine F
  unfolding change_existing get_rule scope
  change_rule exempt answers stored tid id req e =
      change_existing stored req (get_rule O answers (scope exempt false (some tid)) id e) e

  -- A request on the rules.
  pub data Request : Type 0 where
    create : (stored : Bool) → CreateRuleReq F → Request
    change : (answers : Bool) → (stored : Bool) → (tid : ℕ) → Text → UpdateRuleReq F → Request
    delete : (stored : Bool) → Text → Request

  unfoldable pub perform : Bool → Request → Engine F → Engine F
  unfolding create_rule change_rule remove_rule
  perform exempt (create stored req) e = (create_rule stored req e).1
  perform exempt (change answers stored tid id req) e =
      (change_rule exempt answers stored tid id req e).1
  perform exempt (delete stored id) e = (remove_rule O stored id e).1

  unfoldable pub perform_all : Bool → List Request → Engine F → Engine F
  unfolding perform
  perform_all exempt [] e = e
  perform_all exempt (r ∷ rs) e = perform_all exempt rs (perform exempt r e)
