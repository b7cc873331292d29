-- ===== src/Examples/Bindings.antt =====
-- The theorems on bindings of devices: tenant 7 binds the device d to its persona 3.
use ykt_aisaas.Base.{
  ◌≡◌, refl, true, false, some, [], ◌∷◌, Text, codes, text_eq, text_eq_refl, text_eq_iff, pos, sym,
  ◌∙◌,
}
use ykt_aisaas.Errs.{ErrorCode}
use ykt_aisaas.Database.{rows_of, scope, fill}
use ykt_aisaas.Persona.{
  PersonaDo, PersonaBindDo, BindReq, found, failed, is_enabled, in_scope, find_persona, get_by_id,
  taken, new_bind, bind, bind_found, bind_device, bound, insert_bind, is_taken, release_where,
  find_bind, first_of, is_bound_to, get_bind_by_device, get_persona_with_bind, unbind_call, perform,
  perform_all, unbind, unbind_found,
}
use ykt_aisaas.Persona.Bindings.{has_device, bind_again}
use ykt_aisaas.Persona.Fresh.{binding_stays}
use ykt_aisaas.Persona.Reading.{bind_read_back}

text_eq_sym : (s t : Text) → text_eq s t ≡ true → text_eq t s ≡ true
text_eq_sym s t h = (text_eq_iff t s).1 (sym ((text_eq_iff s t).0 h))

text_eq_trans : (s t u : Text) → text_eq s t ≡ true → text_eq t u ≡ true → text_eq s u ≡ true
text_eq_trans s t u h k = (text_eq_iff s u).1 ((text_eq_iff s t).0 h ∙ (text_eq_iff t u).0 k)

abbrev guide : PersonaDo
guide = record {
  id = 3;
  tenant_id = 7;
  code = codes "g";
  name = codes "Guide";
  status = pos 1;
  is_deleted = false;
}

abbrev request : BindReq
request = record {
  device_id = codes "d";
  persona_id = 3;
  bind_type = [];
  priority = pos 0;
  bind_condition = [];
}

abbrev binding : PersonaBindDo
binding = record {
  id = 50;
  tenant_id = 7;
  device_id = codes "d";
  persona_id = 3;
  bind_type = codes "default";
  priority = pos 0;
  bind_condition = [];
  status = pos 1;
  is_deleted = false;
}

abbrev released_binding : PersonaBindDo
released_binding = record binding { status = pos 0; is_deleted = true }

-- Tenant 7 has unbound the device.
bind_again_example :
    (code : ErrorCode) × (bind text_eq true true
        (some 7)
        51
        request
        (guide ∷ [])
        (released_binding ∷ [])
      ≡ (failed code, released_binding ∷ []))
unfolding has_device text_eq
bind_again_example =
    bind_again text_eq true true (some 7) 51 request (guide ∷ []) (released_binding ∷ []) refl

-- Tenant 8, which has no binding of the device, tries to unbind it.
binding_stays_example : binding ≡ binding
unfolding text_eq bind bind_found get_by_id find_persona taken in_scope is_enabled scope fill
    bind_device release_where insert_bind is_taken new_bind bound perform_all perform unbind
    unbind_found get_bind_by_device find_bind is_bound_to first_of
binding_stays_example =
    binding_stays text_eq text_eq_refl text_eq_sym text_eq_trans true true true (some 7) 50 request
      (guide ∷ []) binding binding [] (binding ∷ [])
      (unbind_call true true (some 8) (codes "d") ∷ []) (rows_of 7) refl refl

bind_read_back_example :
    get_persona_with_bind text_eq true true (some 7) (codes "d") (guide ∷ []) (binding ∷ [])
    ≡ found (guide, binding)
unfolding text_eq bind bind_found get_by_id find_persona taken in_scope is_enabled scope fill
    bind_device release_where insert_bind is_taken new_bind bound
bind_read_back_example =
    bind_read_back text_eq text_eq_refl text_eq_sym text_eq_trans true true 7 50 request
      (guide ∷ []) guide binding [] (binding ∷ []) refl refl
