-- ===== src/Persona/Bindings.antt =====
-- What the table of bindings (bind.go and persona.go of internal/tenantm/persona) keeps of a device.
use ykt_aisaas.Base.{
  ℕ, ◌≡◌, refl, ap, ◌∙◌, Bool, true, false, not, ◌&&◌, ◌||◌, ◌==◌, inl, inr, Bool-cases, Option,
  none, some, List, [], ◌∷◌, Text, arith, if◌then◌else◌,
}
use ykt_aisaas.Errs.{ErrorCode, internal}
use ykt_aisaas.Database.{scope, fill}
use ykt_aisaas.Persona.{
  PersonaDo, PersonaBindDo, BindReq, Lookup, found, failed, in_scope, get_by_id, released,
  release_where, new_bind, is_taken, insert_bind, bind_device, bound, bind_found, bind,
}

module _ (same : Text → Text → Bool) where
  -- Whether a row, deleted or not, has the device.
  unfoldable pub has_device : Text → List PersonaBindDo → Bool
  has_device device [] = false
  has_device device (r ∷ rows) = same r.device_id device || has_device device rows

  pub released_device :
      (p : PersonaBindDo → Bool) (r : PersonaBindDo)
      → (if p r then released r else r).device_id ≡ r.device_id
  unfolding released
  released_device p r = elim (Bool-cases (p r)) [ inl hit ↦ rw hit refl | inr miss ↦ rw miss refl ]

  has_device-taken :
      (p : PersonaBindDo → Bool) (id : ℕ) (device : Text) (rows : List PersonaBindDo)
      → has_device device rows ≡ true
      → is_taken same id device (release_where p rows) ≡ true
  unfolding has_device is_taken release_where
  has_device-taken p id device [] h = absurd (ground (arith, h))
  has_device-taken p id device (r ∷ rows) h = elim (Bool-cases (same r.device_id device)) [
    | inl here ↦
        let kept : same (if p r then released r else r).device_id device ≡ true =
          ap (λ d. same d device) (released_device p r) ∙ here in
        ground (arith, kept)
    | inr other ↦
        let later : has_device device rows ≡ true = ground (arith, h, other) in
        let rest = has_device-taken p id device rows later in ground (arith, rest)
  ]

  bind_device-none :
      (committed : Bool) (ctx : Option ℕ) (row : PersonaBindDo) (rows : List PersonaBindDo)
      → has_device row.device_id rows ≡ true
      → bind_device same committed ctx row rows ≡ none
  unfolding bind_device insert_bind fill
  bind_device-none committed none row rows h = refl
  bind_device-none false (some tid) row rows h = refl
  bind_device-none true (some tid) row rows h =
      let clash =
        has_device-taken
          (λ r.
            ((same r.device_id row.device_id && r.tenant_id == row.tenant_id) && not r.is_deleted)
            && in_scope (scope false false (some tid)) r.tenant_id)
          row.id row.device_id rows h in
      rw clash refl

  -- A device that has ever been bound, by whichever tenant, cannot be bound again: where the table has
  -- a row of it, deleted or not, Bind answers with an error and leaves the table as it was, whichever
  -- statements succeed.
  pub bind_again :
      (answers committed : Bool) (ctx : Option ℕ) (id : ℕ) (req : BindReq)
      (personas : List PersonaDo) (rows : List PersonaBindDo)
      → has_device req.device_id rows ≡ true
      → (code : ErrorCode) × (bind same answers committed ctx id req personas rows
          ≡ (failed code, rows))
  unfolding bind
  bind_again answers committed ctx id req personas rows h =
      checked (get_by_id answers (scope false false ctx) req.persona_id personas)
    where
      checked :
          (p : Lookup PersonaDo)
          → (code : ErrorCode) × (bind_found same committed ctx id req p rows ≡ (failed code, rows))
      checked (failed code) = (code, unfold bind_found in refl)
      checked (found p) = (
        internal,
        unfold bind_found in
            ap (λ o. bound same o rows)
              (bind_device-none committed ctx (new_bind id req) rows (unfold new_bind in h))
            ∙ unfold bound in refl,
      )
