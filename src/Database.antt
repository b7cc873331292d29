-- ===== src/Database.antt =====
-- internal/platform/database/database.go, TenantPlugin: which rows a statement of gorm sees, and
-- which tenant a new row gets. A context carries a tenant, or none.
use ykt_aisaas.Base.{
  ℕ, Bool, false, ◌||◌, Option, none, some, List, [], ◌∷◌, Text, text_eq, if◌then◌else◌,
}

-- What the plugin does to a SELECT, UPDATE or DELETE: nothing, a condition on the tenant, or the
-- error TenantContextLost.
pub data Scope : Type 0 where
  every_row : Scope
  rows_of : ℕ → Scope
  context_lost : Scope

-- TenantPlugin.skip
unfoldable pub skip : List Text → Text → Bool
skip [] table = false
skip (t ∷ tables) table = text_eq t table || skip tables table

-- tenant.FromSafe, and what follows of it in scope
abbrev pub scope_of : Option ℕ → Scope
scope_of none = context_lost
scope_of (some tid) = rows_of tid

-- TenantPlugin.scope, for a table that is exempt or not, with SkipHooks or without.
unfoldable pub scope : Bool → Bool → Option ℕ → Scope
scope exempt skip_hooks ctx = if exempt || skip_hooks then every_row else scope_of ctx

-- TenantPlugin.fill: the tenant of a new row, or TenantContextLost.
unfoldable pub fill : Bool → Bool → Option ℕ → ℕ → Option ℕ
fill exempt skip_hooks ctx given = if exempt || skip_hooks then some given else ctx
