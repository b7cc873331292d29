-- ===== src/Persona.antt =====
-- internal/tenantm/persona: which persona a device is bound to (bind.go, and the parts of persona.go
-- and types.go that it uses). Ids are arguments; audit entries are left out. MySQL compares device
-- ids by the collation of the column, and no two rows of ykt_aisaas_persona_bind, deleted or not, have
-- the same device (uk_device). Neither table is exempt from the tenant plugin.
pub mod Bindings
pub mod Stays
pub mod Fresh
pub mod Reading
use ykt_aisaas.Base.{
  ℕ, Bool, true, false, not, ◌&&◌, ◌||◌, ◌==◌, leb, Option, none, some, List, [], ◌∷◌, ◌++◌, Text,
  codes, ℤ, pos, negsuc, ltb_ℤ, leb_ℤ, if◌then◌else◌,
}
use ykt_aisaas.Errs.{ErrorCode, internal, resource_not_found, tenant_context_lost}
use ykt_aisaas.Database.{Scope, every_row, rows_of, context_lost, scope, fill}

-- PersonaDO: what the conditions read, and its names; the fields of the prompt are left out.
pub record PersonaDo : Type 0 where
  pub id : ℕ
  pub tenant_id : ℕ
  pub code : Text
  pub name : Text
  pub status : ℤ
  pub is_deleted : Bool

-- PersonaBindDO, without its times
pub record PersonaBindDo : Type 0 where
  pub id : ℕ
  pub tenant_id : ℕ
  pub device_id : Text
  pub persona_id : ℕ
  pub bind_type : Text
  pub priority : ℤ
  pub bind_condition : Text
  pub status : ℤ
  pub is_deleted : Bool

pub record BindReq : Type 0 where
  pub device_id : Text
  pub persona_id : ℕ
  pub bind_type : Text
  pub priority : ℤ
  pub bind_condition : Text

-- A value, or an error with the code that it answers with
pub data Lookup (A : Type 0) : Type 0 where
  found : A → Lookup A
  failed : ErrorCode → Lookup A

-- The condition that the plugin adds
unfoldable pub in_scope : Scope → ℕ → Bool
in_scope every_row tenant = true
in_scope (rows_of tid) tenant = tenant == tid
in_scope context_lost tenant = false

-- status = 1
unfoldable pub is_enabled : ℤ → Bool
is_enabled (pos n) = n == 1
is_enabled (negsuc n) = false

-- What a Take answers with
unfoldable pub taken : {A : Type 0} → Bool → Scope → Option A → Lookup A
taken answers context_lost row = failed tenant_context_lost
taken answers sc none = if answers then failed resource_not_found else failed internal
taken answers sc (some row) = if answers then found row else failed internal

unfoldable pub find_persona : Scope → ℕ → List PersonaDo → Option PersonaDo
unfolding in_scope is_enabled
find_persona sc id [] = none
find_persona sc id (p ∷ personas) =
    let rest = find_persona sc id personas in
    if ((p.id == id && not p.is_deleted) && is_enabled p.status) && in_scope sc p.tenant_id
    then some p
    else rest

-- Repo.GetByID
unfoldable pub get_by_id : Bool → Scope → ℕ → List PersonaDo → Lookup PersonaDo
unfolding taken find_persona
get_by_id answers sc id personas = taken answers sc (find_persona sc id personas)

-- ORDER BY priority DESC, id ASC
unfoldable pub is_before : PersonaBindDo → PersonaBindDo → Bool
is_before r s = ltb_ℤ s.priority r.priority || (leb_ℤ s.priority r.priority && leb r.id s.id)

unfoldable pub first_of : PersonaBindDo → Option PersonaBindDo → PersonaBindDo
unfolding is_before
first_of r none = r
first_of r (some s) = if is_before r s then r else s

-- What an unbound row holds
unfoldable pub released : PersonaBindDo → PersonaBindDo
released r = record r { status = pos 0; is_deleted = true }

-- An UPDATE that unbinds the rows that meet its conditions
unfoldable pub release_where : (PersonaBindDo → Bool) → List PersonaBindDo → List PersonaBindDo
unfolding released
release_where p [] = []
release_where p (r ∷ rows) = (if p r then released r else r) ∷ release_where p rows

-- The row of Bind; the plugin fills its tenant in.
unfoldable pub new_bind : ℕ → BindReq → PersonaBindDo
new_bind id req = record {
  id = id;
  tenant_id = 0;
  device_id = req.device_id;
  persona_id = req.persona_id;
  bind_type = with_default req.bind_type;
  priority = req.priority;
  bind_condition = req.bind_condition;
  status = pos 1;
  is_deleted = false;
}
  where
    with_default : Text → Text
    with_default [] = codes "default"
    with_default (c ∷ kind) = c ∷ kind

module _ (same : Text → Text → Bool) where
  unfoldable pub is_bound_to : Scope → Text → PersonaBindDo → Bool
  unfolding in_scope is_enabled
  is_bound_to sc device r =
      ((same r.device_id device && not r.is_deleted) && is_enabled r.status)
      && in_scope sc r.tenant_id

  unfoldable pub find_bind : Scope → Text → List PersonaBindDo → Option PersonaBindDo
  unfolding is_bound_to first_of
  find_bind sc device [] = none
  find_bind sc device (r ∷ rows) =
      let rest = find_bind sc device rows in
      if is_bound_to sc device r then some (first_of r rest) else rest

  -- Repo.GetBindByDevice
  unfoldable pub get_bind_by_device :
      Bool → Scope → Text → List PersonaBindDo → Lookup PersonaBindDo
  unfolding taken find_bind
  get_bind_by_device answers sc device rows = taken answers sc (find_bind sc device rows)

  -- Whether a row stands against another one: by its id, or by its device.
  unfoldable pub is_taken : ℕ → Text → List PersonaBindDo → Bool
  is_taken id device [] = false
  is_taken id device (r ∷ rows) = (r.id == id || same r.device_id device) || is_taken id device rows

  unfoldable pub insert_bind :
      Bool
      → Option ℕ
      → PersonaBindDo
      → List PersonaBindDo
      → Option (PersonaBindDo × List PersonaBindDo)
  unfolding is_taken
  insert_bind stored none row rows = none
  insert_bind stored (some tid) row rows =
      if stored && not (is_taken row.id row.device_id rows)
      then some (record row { tenant_id = tid }, rows ++ record row { tenant_id = tid } ∷ [])
      else none

  -- Repo.BindDevice: none for a transaction that is rolled back.
  unfoldable pub bind_device :
      Bool
      → Option ℕ
      → PersonaBindDo
      → List PersonaBindDo
      → Option (PersonaBindDo × List PersonaBindDo)
  unfolding insert_bind release_where in_scope scope fill
  bind_device committed ctx row rows =
      insert_bind committed (fill false false ctx row.tenant_id) row (
        release_where
          (λ r.
            ((same r.device_id row.device_id && r.tenant_id == row.tenant_id) && not r.is_deleted)
            && in_scope (scope false false ctx) r.tenant_id)
          rows)

  unfoldable pub bound :
      Option (PersonaBindDo × List PersonaBindDo)
      → List PersonaBindDo
      → Lookup PersonaBindDo × List PersonaBindDo
  bound none rows = (failed internal, rows)
  bound (some (row, rows')) rows = (found row, rows')

  unfoldable pub bind_found :
      Bool
      → Option ℕ
      → ℕ
      → BindReq
      → Lookup PersonaDo
      → List PersonaBindDo
      → Lookup PersonaBindDo × List PersonaBindDo
  unfolding bound bind_device new_bind
  bind_found committed ctx id req (failed code) rows = (failed code, rows)
  bind_found committed ctx id req (found p) rows =
      bound (bind_device committed ctx (new_bind id req) rows) rows

  -- Service.Bind
  unfoldable pub bind :
      Bool
      → Bool
      → Option ℕ
      → ℕ
      → BindReq
      → List PersonaDo
      → List PersonaBindDo
      → Lookup PersonaBindDo × List PersonaBindDo
  unfolding bind_found get_by_id scope
  bind answers committed ctx id req personas rows =
      bind_found committed ctx id req
        (get_by_id answers (scope false false ctx) req.persona_id personas) rows

  unfoldable pub unbind_found :
      Bool
      → Scope
      → Text
      → Lookup PersonaBindDo
      → List PersonaBindDo
      → Option ErrorCode × List PersonaBindDo
  unfolding release_where in_scope
  unbind_found stored sc device (failed code) rows = (some code, rows)
  unbind_found stored sc device (found r) rows =
      if stored
      then (
        none,
        release_where
            (λ r. (same r.device_id device && not r.is_deleted) && in_scope sc r.tenant_id) rows,
      )
      else (some internal, rows)

  -- Service.Unbind
  unfoldable pub unbind :
      Bool → Bool → Option ℕ → Text → List PersonaBindDo → Option ErrorCode × List PersonaBindDo
  unfolding unbind_found get_bind_by_device scope
  unbind answers stored ctx device rows =
      unbind_found stored (scope false false ctx) device
        (get_bind_by_device answers (scope false false ctx) device rows) rows

  unfoldable pub persona_of :
      Bool → Scope → Lookup PersonaBindDo → List PersonaDo → Lookup (PersonaDo × PersonaBindDo)
  unfolding get_by_id
  persona_of answers sc (failed code) personas = failed code
  persona_of answers sc (found r) personas = paired (get_by_id answers sc r.persona_id personas)
    where
      paired : Lookup PersonaDo → Lookup (PersonaDo × PersonaBindDo)
      paired (failed code) = failed code
      paired (found p) = found (p, r)

  -- Service.GetPersonaWithBind; each of its two SELECTs answers or not.
  unfoldable pub get_persona_with_bind :
      Bool
      → Bool
      → Option ℕ
      → Text
      → List PersonaDo
      → List PersonaBindDo
      → Lookup (PersonaDo × PersonaBindDo)
  unfolding persona_of get_bind_by_device scope
  get_persona_with_bind answers answers' ctx device personas rows =
      persona_of answers' (scope false false ctx)
        (get_bind_by_device answers (scope false false ctx) device rows) personas

  -- Calls of the service that change the table, by whichever tenants
  pub data Call : Type 0 where
    bind_call : Bool → Bool → Option ℕ → ℕ → BindReq → List PersonaDo → Call
    unbind_call : Bool → Bool → Option ℕ → Text → Call

  unfoldable pub perform : Call → List PersonaBindDo → List PersonaBindDo
  unfolding bind unbind
  perform (bind_call answers committed ctx id req personas) rows =
      (bind answers committed ctx id req personas rows).1
  perform (unbind_call answers stored ctx device) rows = (unbind answers stored ctx device rows).1

  unfoldable pub perform_all : List Call → List PersonaBindDo → List PersonaBindDo
  unfolding perform
  perform_all [] rows = rows
  perform_all (c ∷ calls) rows = perform_all calls (perform c rows)
