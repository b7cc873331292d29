-- ===== src/Persona/Reading.antt =====
-- Lookups of a binding (GetPersonaWithBind of internal/tenantm/persona/persona.go) after its Bind.
use ykt_aisaas.Base.{
  ℕ, ◌≡◌, refl, sym, ap, ◌∙◌, Bool, true, false, ◌==◌, inl, inr, Bool-cases, Option, none, some,
  List, [], ◌∷◌, ◌++◌, Text, arith,
}
use ykt_aisaas.Database.{Scope, rows_of, scope, fill}
use ykt_aisaas.Persona.{
  PersonaDo, PersonaBindDo, BindReq, Lookup, found, failed, in_scope, is_enabled, taken, get_by_id,
  first_of, new_bind, is_bound_to, find_bind, get_bind_by_device, is_taken, insert_bind,
  bind_device, bound, bind_found, bind, persona_of, get_persona_with_bind,
}
use ykt_aisaas.Persona.Stays.{find_bind-same}
use ykt_aisaas.Persona.Fresh.{bind-fresh}

module _ (same : Text → Text → Bool) (same_refl : (a : Text) → same a a ≡ true)
    (same_sym : (a b : Text) → same a b ≡ true → same b a ≡ true)
    (same_trans : (a b c : Text) → same a b ≡ true → same b c ≡ true → same a c ≡ true) where
  find_bind-last :
      (sc : Scope) (device : Text) (row : PersonaBindDo) (rows : List PersonaBindDo)
      → is_bound_to same sc device row ≡ true
      → (s : PersonaBindDo) × (find_bind same sc device (rows ++ row ∷ []) ≡ some s)
  unfolding find_bind
  find_bind-last sc device row [] e = rw e (row, unfold first_of in refl)
  find_bind-last sc device row (r ∷ rows) e =
      let (s, later) : (s : PersonaBindDo) × (find_bind same sc device (rows ++ row ∷ [])
            ≡ some s) =
        find_bind-last sc device row rows e in
      elim (Bool-cases (is_bound_to same sc device r)) [
        | inl here ↦ rw here (first_of r (find_bind same sc device (rows ++ row ∷ [])), refl)
        | inr miss ↦ rw miss (s, later)
      ]

  -- What an insertion answers with ends the table, with the tenant of its context.
  insert_bind-last :
      (stored : Bool) (tid : ℕ) (row b : PersonaBindDo) (rows rows' : List PersonaBindDo)
      → insert_bind same stored (some tid) row rows ≡ some (b, rows')
      → (b ≡ record row { tenant_id = tid }) × (rows' ≡ rows ++ b ∷ [])
  unfolding insert_bind
  insert_bind-last false tid row b rows rows' h = absurd (ground (arith, h))
  insert_bind-last true tid row b rows rows' h =
      elim (Bool-cases (is_taken same row.id row.device_id rows)) [
        | inl clash ↦ absurd (ground (arith, h, clash))
        | inr free ↦
            let is_b : record row { tenant_id = tid } ≡ b = ground (arith, h, free) in
            let is_rows : rows ++ record row { tenant_id = tid } ∷ [] ≡ rows' =
              ground (arith, h, free) in
            (sym is_b, sym is_rows ∙ ap (λ q. rows ++ q ∷ []) is_b)
      ]

  bind-last :
      (answers committed : Bool) (tid id : ℕ) (req : BindReq) (personas : List PersonaDo)
      (b : PersonaBindDo) (rows rows' : List PersonaBindDo)
      → bind same answers committed (some tid) id req personas rows ≡ (found b, rows')
      → (b ≡ record (new_bind id req) { tenant_id = tid })
        × (before : List PersonaBindDo) × (rows' ≡ before ++ b ∷ [])
  unfolding bind bind_found bind_device bound
  bind-last answers committed tid id req personas b rows rows' h =
      checked (get_by_id answers (scope false false (some tid)) req.persona_id personas) h
    where
      Last : Type 0
      Last =
          (b ≡ record (new_bind id req) { tenant_id = tid })
          × (before : List PersonaBindDo) × (rows' ≡ before ++ b ∷ [])

      settled :
          (before : List PersonaBindDo) (o : Option (PersonaBindDo × List PersonaBindDo))
          → insert_bind same committed (some tid) (new_bind id req) before ≡ o
          → bound same o rows ≡ (found b, rows')
          → Last
      settled before none e k = absurd (ground (arith, k))
      settled before (some (row, more)) e k =
          let is_b : row ≡ b = ground (arith, k) in
          let is_rows : more ≡ rows' = ground (arith, k) in
          let (one, two) =
            insert_bind-last committed tid (new_bind id req) b before rows'
              (rw (sym is_b, sym is_rows) e) in
          (one, before, two)

      checked :
          (p : Lookup PersonaDo)
          → bind_found same committed (some tid) id req p rows ≡ (found b, rows')
          → Last
      checked (failed code) k = absurd (ground (arith, k))
      checked (found p) k = settled _ _ (unfold scope in unfold fill in refl) k

  -- After a Bind in a context with a tenant that answers with a binding, a lookup of its device by that
  -- tenant, whose statements answer, finds that binding with the persona that the request names.
  pub bind_read_back :
      (answers committed : Bool) (tid id : ℕ) (req : BindReq) (personas : List PersonaDo)
      (p : PersonaDo) (b : PersonaBindDo) (rows rows' : List PersonaBindDo)
      → bind same answers committed (some tid) id req personas rows ≡ (found b, rows')
      → get_by_id true (rows_of tid) req.persona_id personas ≡ found p
      → get_persona_with_bind same true true (some tid) req.device_id personas rows' ≡ found (p, b)
  unfolding get_persona_with_bind get_bind_by_device taken persona_of scope
  bind_read_back answers committed tid id req personas p b rows rows' h named =
      let (is_new, before, is_rows) =
        bind-last answers committed tid id req personas b rows rows' h in
      let stays =
        bind-fresh same same_refl same_sym same_trans answers committed (some tid) id req personas b
          rows rows' h in
      let own : (tid == tid) ≡ true = ground arith in
      let hit : is_bound_to same (rows_of tid) req.device_id b ≡ true = rw is_new (
        unfold is_bound_to in
        unfold new_bind in
        unfold is_enabled in unfold in_scope in rw (same_refl req.device_id, own) refl) in
      let (s, seen) : (s : PersonaBindDo) × (find_bind same (rows_of tid) req.device_id
              (before ++ b ∷ [])
            ≡ some s) =
        find_bind-last (rows_of tid) req.device_id b before hit in
      let seen' : find_bind same (rows_of tid) req.device_id rows' ≡ some s = rw is_rows seen in
      let is_b : s ≡ b =
        find_bind-same same same_sym same_trans (rows_of tid) req.device_id b s rows' stays.1
          seen' in
      let the_persona : b.persona_id ≡ req.persona_id = rw is_new (unfold new_bind in refl) in
      rw (seen', is_b, the_persona, named) refl
