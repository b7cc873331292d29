-- ===== src/Examples/Models.antt =====
-- The theorems on models: a global model, and one of tenant 7 under the same id.
use ykt_aisaas.Base.{
  ℕ, ◌+◌, ltb, ◌≡◌, refl, Bool, true, false, Option, none, some, [], ◌∷◌, Text, text_eq, codes,
  decimal, lookup, put, pos,
}
use ykt_aisaas.Llm.{
  ModelDo, Models, Resolved, cache_ttl, cache_key, ok, first_where, select_model, fresh, loaded,
  load_uncached, load, decrypted, resolved, resolve_for, or_else,
}
use ykt_aisaas.Llm.Resolving.{Ask, ask_all, ServedBy, resolve_for_valid, load_outcome}

abbrev global_model : ModelDo ℕ
global_model = record {
  id = 1;
  tenant_id = none;
  model_id = codes "m";
  provider = codes "p";
  base_url = codes "u1";
  api_key_enc = codes "e1";
  upstream_model = codes "up";
  kind = codes "chat";
  price_input_cents = 1;
  price_output_cents = 2;
  is_default = pos 1;
  status = pos 1;
  is_deleted = false;
}

abbrev own_model : ModelDo ℕ
own_model = record global_model { id = 2; tenant_id = some 7; base_url = codes "u7" }

abbrev models : Models ℕ
models = record { same_id = text_eq; rows = global_model ∷ own_model ∷ [] }

abbrev asked : ℕ → ℕ → Ask ℕ
asked now tid = record {
  answers = true;
  now = now;
  tid = tid;
  model_id = codes "m";
  want = codes "chat";
  table = models;
}

abbrev plain_keys : Text → Option Text
plain_keys enc = some enc

abbrev resolved_7 : Resolved
resolved_7 = record {
  model_id = codes "m";
  upstream_model = codes "up";
  provider = codes "p";
  kind = codes "chat";
  base_url = codes "u7";
  api_key = codes "e1";
}

resolve_for_valid_example :
    (p : Ask ℕ) × (m : ModelDo ℕ) × ServedBy plain_keys
      (asked 3 7 ∷ asked 1 8 ∷ asked 2 7 ∷ [])
      (asked 3 7)
      resolved_7
      p
      m
unfolding resolve_for resolved decrypted load load_uncached loaded select_model or_else first_where
    fresh cache_key ask_all lookup put text_eq decimal
resolve_for_valid_example =
    resolve_for_valid plain_keys (asked 1 8 ∷ asked 2 7 ∷ []) (asked 3 7) resolved_7 refl

load_outcome_example :
    let (a, cache) = load true 5 7 (codes "m") models [] in
    (a ≡ ok own_model)
    × ((answers : Bool) (later : ℕ) (table : Models ℕ)
        → ltb later (5 + cache_ttl) ≡ true
        → load answers later 7 (codes "m") table cache ≡ (ok own_model, cache))
unfolding first_where fresh lookup text_eq
load_outcome_example = load_outcome 5 6 (codes "m") models [] own_model refl refl
