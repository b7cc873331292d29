-- ===== src/Persona/Fresh.antt =====
-- What a Bind that answers with a binding (bind.go of internal/tenantm/persona) leaves for lookups.
use ykt_aisaas.Base.{
  ℕ, ◌≡◌, refl, sym, subst, Bool, true, false, inl, inr, Bool-cases, Option, none, some, List, [],
  ◌∷◌, ◌++◌, Text, All-append, arith,
}
use ykt_aisaas.Database.{Scope, every_row, rows_of, context_lost, scope, fill}
use ykt_aisaas.Persona.{
  PersonaDo, PersonaBindDo, BindReq, Lookup, found, failed, taken, get_by_id, new_bind, find_bind,
  get_bind_by_device, is_taken, insert_bind, bind_device, bound, bind_found, bind, Call,
  perform_all,
}
use ykt_aisaas.Persona.Bindings.{has_device}
use ykt_aisaas.Persona.Stays.{Kept, Owned, Stays, perform_all-Stays, find_bind-same}

module _ (same : Text → Text → Bool) (same_refl : (a : Text) → same a a ≡ true)
    (same_sym : (a b : Text) → same a b ≡ true → same b a ≡ true)
    (same_trans : (a b c : Text) → same a b ≡ true → same b c ≡ true → same a c ≡ true) where
  not_taken-Owned :
      (id : ℕ) (device : Text) (b : PersonaBindDo) (rows : List PersonaBindDo)
      → is_taken same id device rows ≡ false
      → Owned same device b rows
  unfolding is_taken
  not_taken-Owned id device b [] h = tt
  not_taken-Owned id device b (r ∷ rows) h =
      let other : same r.device_id device ≡ false = ground (arith, h) in
      let later : is_taken same id device rows ≡ false = ground (arith, h) in
      ((λ e. absurd (ground (arith, e, other))), not_taken-Owned id device b rows later)

  has_device-last :
      (device : Text) (row : PersonaBindDo) (rows : List PersonaBindDo)
      → same row.device_id device ≡ true
      → has_device same device (rows ++ row ∷ []) ≡ true
  unfolding has_device
  has_device-last device row [] e = rw e refl
  has_device-last device row (r ∷ rows) e =
      let rest = has_device-last device row rows e in
      elim (Bool-cases (same r.device_id device)) [
        | inl here ↦ rw here refl
        | inr miss ↦ rw (miss, rest) refl
      ]

  -- A row that an insertion answers with is the only one of its device.
  insert_bind-fresh :
      (stored : Bool) (ctx : Option ℕ) (row b : PersonaBindDo) (rows rows' : List PersonaBindDo)
      → insert_bind same stored ctx row rows ≡ some (b, rows')
      → Stays same row.device_id b rows'
  unfolding insert_bind
  insert_bind-fresh stored none row b rows rows' h = absurd (ground (arith, h))
  insert_bind-fresh false (some tid) row b rows rows' h = absurd (ground (arith, h))
  insert_bind-fresh true (some tid) row b rows rows' h =
      elim (Bool-cases (is_taken same row.id row.device_id rows)) [
        | inl clash ↦ absurd (ground (arith, h, clash))
        | inr free ↦
            let is_b : record row { tenant_id = tid } ≡ b = ground (arith, h, free) in
            let is_rows : rows ++ record row { tenant_id = tid } ∷ [] ≡ rows' =
              ground (arith, h, free) in
            subst (λ t. Stays same row.device_id b t) is_rows
              (
                has_device-last row.device_id (record row { tenant_id = tid }) rows
                    (same_refl row.device_id),
                All-append (λ s. same s.device_id row.device_id ≡ true → Kept b s) rows
                    (record row { tenant_id = tid } ∷ [])
                    (not_taken-Owned row.id row.device_id b rows free) ((λ e. inl is_b), tt),
              )
      ]

  pub bind-fresh :
      (answers committed : Bool) (ctx : Option ℕ) (id : ℕ) (req : BindReq)
      (personas : List PersonaDo) (b : PersonaBindDo) (rows rows' : List PersonaBindDo)
      → bind same answers committed ctx id req personas rows ≡ (found b, rows')
      → Stays same req.device_id b rows'
  unfolding bind bind_found bind_device bound new_bind
  bind-fresh answers committed ctx id req personas b rows rows' h =
      checked (get_by_id answers (scope false false ctx) req.persona_id personas) h
    where
      settled :
          (before : List PersonaBindDo) (o : Option (PersonaBindDo × List PersonaBindDo))
          → insert_bind same committed
              (fill false false ctx (new_bind id req).tenant_id)
              (new_bind id req)
              before
            ≡ o
          → bound same o rows ≡ (found b, rows')
          → Stays same req.device_id b rows'
      settled before none e k = absurd (ground (arith, k))
      settled before (some (row, more)) e k =
          let is_b : row ≡ b = ground (arith, k) in
          let is_rows : more ≡ rows' = ground (arith, k) in
          insert_bind-fresh committed (fill false false ctx (new_bind id req).tenant_id)
            (new_bind id req) b before rows' (rw (sym is_b, sym is_rows) e)

      checked :
          (p : Lookup PersonaDo)
          → bind_found same committed ctx id req p rows ≡ (found b, rows')
          → Stays same req.device_id b rows'
      checked (failed code) k = absurd (ground (arith, k))
      checked (found p) k = settled _ _ refl k

  -- After a Bind that answers with a binding, and any later calls of Bind and Unbind by any tenants,
  -- whichever of their statements succeed, every lookup of the device, in any context, that finds a
  -- binding finds that one: the same persona, tenant and priority.
  pub binding_stays :
      (answers committed answers' : Bool) (ctx : Option ℕ) (id : ℕ) (req : BindReq)
      (personas : List PersonaDo) (b s : PersonaBindDo) (rows rows' : List PersonaBindDo)
      (calls : List (Call same)) (sc : Scope)
      → bind same answers committed ctx id req personas rows ≡ (found b, rows')
      → get_bind_by_device same answers' sc req.device_id (perform_all same calls rows') ≡ found s
      → s ≡ b
  unfolding get_bind_by_device taken
  binding_stays answers committed answers' ctx id req personas b s rows rows' calls sc h got =
      looked answers' sc (find_bind same sc req.device_id (perform_all same calls rows'))
        (λ q e.
          find_bind-same same same_sym same_trans sc req.device_id b q
            (perform_all same calls rows')
            (perform_all-Stays same same_sym same_trans calls req.device_id b rows'
              (bind-fresh answers committed ctx id req personas b rows rows' h)).1
            e)
        got
    where
      looked :
          (a : Bool) (z : Scope) (o : Option PersonaBindDo)
          → ((q : PersonaBindDo) → o ≡ some q → q ≡ b)
          → taken a z o ≡ found s
          → s ≡ b
      looked a context_lost o k e = absurd (ground (arith, e))
      looked true every_row none k e = absurd (ground (arith, e))
      looked false every_row none k e = absurd (ground (arith, e))
      looked true (rows_of t) none k e = absurd (ground (arith, e))
      looked false (rows_of t) none k e = absurd (ground (arith, e))
      looked true every_row (some q) k e = k s (ground (arith, e))
      looked false every_row (some q) k e = absurd (ground (arith, e))
      looked true (rows_of t) (some q) k e = k s (ground (arith, e))
      looked false (rows_of t) (some q) k e = absurd (ground (arith, e))
