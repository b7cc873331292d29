-- ===== src/Persona/Stays.antt =====
-- A binding (bind.go and persona.go of internal/tenantm/persona) after later calls. A collation is
-- reflexive, symmetric and transitive.
use ykt_aisaas.Base.{
  ℕ, ◌≡◌, ◌⊎◌, refl, sym, ap, ◌∙◌, Bool, true, false, inl, inr, Bool-cases, Option, none, some,
  List, [], ◌∷◌, ◌++◌, Text, All, All-append, arith, if◌then◌else◌,
}
use ykt_aisaas.Database.{Scope, scope, fill}
use ykt_aisaas.Persona.{
  PersonaDo, PersonaBindDo, BindReq, Lookup, found, failed, get_by_id, is_before, first_of,
  released, release_where, new_bind, is_bound_to, find_bind, get_bind_by_device, is_taken,
  insert_bind, bind_device, bound, bind_found, bind, unbind_found, unbind, Call, bind_call,
  unbind_call, perform, perform_all,
}
use ykt_aisaas.Persona.Bindings.{has_device, released_device}

-- A row that is the binding, or the binding after it was released
abbrev pub Kept : PersonaBindDo → PersonaBindDo → Type 0
Kept b s = (s ≡ b) ⊎ (s ≡ released b)

Kept-released :
    (p : PersonaBindDo → Bool) (b s : PersonaBindDo)
    → Kept b s
    → Kept b (if p s then released s else s)
unfolding released
Kept-released p b s h = elim (Bool-cases (p s)) [
  | inl hit ↦ rw hit (again h)
  | inr miss ↦ rw miss h
]
  where
    again : Kept b s → Kept b (released s)
    again (inl e) = inr (ap released e)
    again (inr e) = inr (ap released e)

-- A live row that is the binding or was is the binding.
Kept-live : (b s : PersonaBindDo) → Kept b s → s.is_deleted ≡ false → s ≡ b
unfolding released
Kept-live b s (inl e) live = e
Kept-live b s (inr e) live =
    let gone : s.is_deleted ≡ true = ap (λ (q : PersonaBindDo). q.is_deleted) e in
    absurd (ground (arith, gone, live))

module _ (same : Text → Text → Bool) where
  abbrev pub Owned : Text → PersonaBindDo → List PersonaBindDo → Type 0
  Owned device b rows = All (λ s. same s.device_id device ≡ true → Kept b s) rows

  -- The device has a row, and its rows are the binding.
  abbrev pub Stays : Text → PersonaBindDo → List PersonaBindDo → Type 0
  Stays device b rows = (has_device same device rows ≡ true) × Owned device b rows

  has_device-release_where :
      (p : PersonaBindDo → Bool) (device : Text) (rows : List PersonaBindDo)
      → has_device same device (release_where p rows) ≡ has_device same device rows
  unfolding has_device release_where
  has_device-release_where p device [] = refl
  has_device-release_where p device (r ∷ rows) =
      rw (released_device same p r, has_device-release_where p device rows) refl

  release_where-Owned :
      (p : PersonaBindDo → Bool) (device : Text) (b : PersonaBindDo) (rows : List PersonaBindDo)
      → Owned device b rows
      → Owned device b (release_where p rows)
  unfolding release_where
  release_where-Owned p device b [] h = tt
  release_where-Owned p device b (r ∷ rows) h = (
    (λ e. Kept-released p b r (h.0 (ap (λ d. same d device) (sym (released_device same p r)) ∙ e))),
    release_where-Owned p device b rows h.1,
  )

  release_where-Stays :
      (p : PersonaBindDo → Bool) (device : Text) (b : PersonaBindDo) (rows : List PersonaBindDo)
      → Stays device b rows
      → Stays device b (release_where p rows)
  release_where-Stays p device b rows h =
      (has_device-release_where p device rows ∙ h.0, release_where-Owned p device b rows h.1)

module _ (same : Text → Text → Bool) (same_sym : (a b : Text) → same a b ≡ true → same b a ≡ true)
    (same_trans : (a b c : Text) → same a b ≡ true → same b c ≡ true → same a c ≡ true) where
  -- A row of the device stands against each other device id that the collation takes for it.
  has_device-clash :
      (id : ℕ) (device other : Text) (rows : List PersonaBindDo)
      → same other device ≡ true
      → has_device same device rows ≡ true
      → is_taken same id other rows ≡ true
  unfolding has_device is_taken
  has_device-clash id device other [] e h = absurd (ground (arith, h))
  has_device-clash id device other (r ∷ rows) e h = elim (Bool-cases (same r.device_id device)) [
    | inl here ↦
        let hit = same_trans r.device_id device other here (same_sym other device e) in
        ground (arith, hit)
    | inr miss ↦
        let later : has_device same device rows ≡ true = ground (arith, h, miss) in
        let rest = has_device-clash id device other rows e later in ground (arith, rest)
  ]

  has_device-append :
      (device : Text) (rows more : List PersonaBindDo)
      → has_device same device rows ≡ true
      → has_device same device (rows ++ more) ≡ true
  unfolding has_device
  has_device-append device [] more h = absurd (ground (arith, h))
  has_device-append device (r ∷ rows) more h = elim (Bool-cases (same r.device_id device)) [
    | inl here ↦ rw here refl
    | inr miss ↦
        let later : has_device same device rows ≡ true = ground (arith, h, miss) in
        rw (miss, has_device-append device rows more later) refl
  ]

  -- The table after an insertion that succeeded, or the one before.
  abbrev table_of :
      Option (PersonaBindDo × List PersonaBindDo) → List PersonaBindDo → List PersonaBindDo
  table_of none rows = rows
  table_of (some (row, rows')) rows = rows'

  insert_bind-Stays :
      (stored : Bool) (ctx : Option ℕ) (row : PersonaBindDo) (device : Text) (b : PersonaBindDo)
      (rows before : List PersonaBindDo)
      → Stays same device b rows
      → Stays same device b before
      → Stays same device b (table_of (insert_bind same stored ctx row rows) before)
  unfolding insert_bind
  insert_bind-Stays stored none row device b rows before h h' = h'
  insert_bind-Stays false (some tid) row device b rows before h h' = h'
  insert_bind-Stays true (some tid) row device b rows before h h' =
      elim (Bool-cases (is_taken same row.id row.device_id rows)) [
        | inl clash ↦ rw clash h'
        | inr free ↦ rw free (
          has_device-append device rows (record row { tenant_id = tid } ∷ []) h.0,
          All-append (λ s. same s.device_id device ≡ true → Kept b s) rows
              (record row { tenant_id = tid } ∷ []) h.1 ((λ e. absurd (apart free e)), tt),
        )
      ]
    where
      apart : is_taken same row.id row.device_id rows ≡ false → same row.device_id device ≡ true → ⊥
      apart free e =
          let clash = has_device-clash row.id device row.device_id rows e h.0 in
          ground (arith, clash, free)

  bind-Stays :
      (answers committed : Bool) (ctx : Option ℕ) (id : ℕ) (req : BindReq)
      (personas : List PersonaDo) (device : Text) (b : PersonaBindDo) (rows : List PersonaBindDo)
      → Stays same device b rows
      → Stays same device b (bind same answers committed ctx id req personas rows).1
  unfolding bind bind_found bind_device bound
  bind-Stays answers committed ctx id req personas device b rows h =
      checked (get_by_id answers (scope false false ctx) req.persona_id personas)
    where
      settled :
          (o : Option (PersonaBindDo × List PersonaBindDo))
          → Stays same device b (table_of o rows)
          → Stays same device b (bound same o rows).1
      settled none k = k
      settled (some (row, rows')) k = k

      checked :
          (p : Lookup PersonaDo)
          → Stays same device b (bind_found same committed ctx id req p rows).1
      checked (failed code) = h
      checked (found p) = settled (bind_device same committed ctx (new_bind id req) rows) (
          insert_bind-Stays committed (fill false false ctx (new_bind id req).tenant_id)
            (new_bind id req) device b _ rows (release_where-Stays same _ device b rows h) h)

  unbind-Stays :
      (answers stored : Bool) (ctx : Option ℕ) (target device : Text) (b : PersonaBindDo)
      (rows : List PersonaBindDo)
      → Stays same device b rows
      → Stays same device b (unbind same answers stored ctx target rows).1
  unfolding unbind unbind_found
  unbind-Stays answers stored ctx target device b rows h =
      checked stored (get_bind_by_device same answers (scope false false ctx) target rows)
    where
      checked :
          (ok : Bool) (r : Lookup PersonaBindDo)
          → Stays same device b (unbind_found same ok (scope false false ctx) target r rows).1
      checked ok (failed code) = h
      checked true (found r) = release_where-Stays same _ device b rows h
      checked false (found r) = h

  pub perform_all-Stays :
      (calls : List (Call same)) (device : Text) (b : PersonaBindDo) (rows : List PersonaBindDo)
      → Stays same device b rows
      → Stays same device b (perform_all same calls rows)
  unfolding perform_all perform
  perform_all-Stays [] device b rows h = h
  perform_all-Stays (bind_call answers committed ctx id req personas ∷ calls) device b rows h =
      perform_all-Stays calls device b _
        (bind-Stays answers committed ctx id req personas device b rows h)
  perform_all-Stays (unbind_call answers stored ctx target ∷ calls) device b rows h =
      perform_all-Stays calls device b _ (unbind-Stays answers stored ctx target device b rows h)

  -- What a lookup finds is the binding.
  pub find_bind-same :
      (sc : Scope) (device : Text) (b s : PersonaBindDo) (rows : List PersonaBindDo)
      → Owned same device b rows
      → find_bind same sc device rows ≡ some s
      → s ≡ b
  unfolding find_bind is_bound_to first_of
  find_bind-same sc device b s [] h e = absurd (ground (arith, e))
  find_bind-same sc device b s (r ∷ rows) h e =
      picked (is_bound_to same sc device r) refl (find_bind same sc device rows)
        (λ q got. find_bind-same sc device b q rows h.1 got) e
    where
      live :
          is_bound_to same sc device r ≡ true
          → (same r.device_id device ≡ true) × (r.is_deleted ≡ false)
      live hit = ground (arith, hit)

      picked :
          (t : Bool)
          → is_bound_to same sc device r ≡ t
          → (o : Option PersonaBindDo) → ((q : PersonaBindDo) → o ≡ some q → q ≡ b)
          → (if t then some (first_of r o) else o) ≡ some s
          → s ≡ b
      picked false miss o rest got = rest s got
      picked true hit none rest got =
          let same_row : r ≡ s = ground (arith, got) in
          sym same_row ∙ Kept-live b r (h.0 (live hit).0) (live hit).1
      picked true hit (some q) rest got = elim (Bool-cases (is_before r q)) [
        | inl before ↦
            let same_row : r ≡ s = ground (arith, got, before) in
            sym same_row ∙ Kept-live b r (h.0 (live hit).0) (live hit).1
        | inr after ↦
            let same_row : q ≡ s = ground (arith, got, after) in sym same_row ∙ rest q refl
      ]
