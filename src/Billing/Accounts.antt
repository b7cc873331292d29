-- ===== src/Billing/Accounts.antt =====
-- What the statements of billing.go do to a tenant's columns.
use ykt_aisaas.Base.{
  ℕ, ◌≡◌, refl, true, false, not, ◌&&◌, inl, inr, List, [], ◌∷◌, ◌++◌, arith, ℤ, pos, ◌+ℤ◌, ◌==◌,
  if◌then◌else◌, Bool-cases,
}
use ykt_aisaas.Billing.{Account, column_of, has_account, update_account, ensure_account}

-- An update that adds to a column adds to it for its tenant, if there is an account, and for no
-- other.
pub column_of-update :
    (g : Account → ℤ) (delta : ℤ) (t u : ℕ) (f : Account → Account) (accounts : List Account)
    → ((a : Account) → (f a).tenant_id ≡ a.tenant_id)
    → ((a : Account) → g (f a) ≡ g a +ℤ delta)
    → column_of g u (update_account t f accounts).1 ≡ (
        if t == u && has_account t accounts
        then column_of g u accounts +ℤ delta
        else column_of g u accounts)
unfolding column_of update_account has_account
column_of-update g delta t u f [] keeps adds = ground arith
column_of-update g delta t u f (a ∷ accounts) keeps adds =
    ground (arith, keeps a, adds a, column_of-update g delta t u f accounts keeps adds)

pub update_affects :
    (t : ℕ) (f : Account → Account) (accounts : List Account)
    → ((update_account t f accounts).0 == 0) ≡ not (has_account t accounts)
unfolding update_account has_account
update_affects t f [] = refl
update_affects t f (a ∷ accounts) = ground (arith, update_affects t f accounts)

pub update_missing :
    (t : ℕ) (f : Account → Account) (accounts : List Account)
    → has_account t accounts ≡ false
    → (update_account t f accounts).1 ≡ accounts
unfolding update_account has_account
update_missing t f [] h = refl
update_missing t f (a ∷ accounts) h = ground (arith, update_missing t f accounts)

abbrev pub new_account : ℕ → Account
new_account t = record {
  tenant_id = t;
  balance_cents = pos 0;
  total_recharged = pos 0;
  total_consumed = pos 0;
}

column_of-append :
    (g : Account → ℤ) (t u : ℕ) (accounts : List Account)
    → g (new_account t) ≡ pos 0
    → column_of g u (accounts ++ new_account t ∷ []) ≡ column_of g u accounts
unfolding column_of
column_of-append g t u [] zero_start = ground arith
column_of-append g t u (a ∷ accounts) zero_start =
    ground (arith, column_of-append g t u accounts zero_start)

has_account-append :
    (t : ℕ) (accounts : List Account) → has_account t (accounts ++ new_account t ∷ []) ≡ true
unfolding has_account
has_account-append t [] = ground arith
has_account-append t (a ∷ accounts) = ground (arith, has_account-append t accounts)

-- Opening an account changes no column and leaves an account.
pub column_of-ensure :
    (g : Account → ℤ) (t u : ℕ) (accounts : List Account)
    → g (new_account t) ≡ pos 0
    → column_of g u (ensure_account t accounts) ≡ column_of g u accounts
unfolding ensure_account
column_of-ensure g t u accounts zero_start = elim (Bool-cases (has_account t accounts)) [
  | inl old ↦ rw old refl
  | inr new ↦ rw new (column_of-append g t u accounts zero_start)
]

pub has_account-ensure :
    (t : ℕ) (accounts : List Account) → has_account t (ensure_account t accounts) ≡ true
unfolding ensure_account
has_account-ensure t accounts = elim (Bool-cases (has_account t accounts)) [
  | inl old ↦ rw old old
  | inr new ↦ rw new (has_account-append t accounts)
]

-- Opening an account and then adding to it.
pub column_of-ensured_update :
    (g : Account → ℤ) (delta : ℤ) (t u : ℕ) (f : Account → Account) (accounts : List Account)
    → g (new_account t) ≡ pos 0
    → ((a : Account) → (f a).tenant_id ≡ a.tenant_id)
    → ((a : Account) → g (f a) ≡ g a +ℤ delta)
    → column_of g u (update_account t f (ensure_account t accounts)).1
      ≡ (if t == u then column_of g u accounts +ℤ delta else column_of g u accounts)
column_of-ensured_update g delta t u f accounts zero_start keeps adds = ground (
  arith,
  column_of-update g delta t u f (ensure_account t accounts) keeps adds,
  has_account-ensure t accounts,
  column_of-ensure g t u accounts zero_start,
)
