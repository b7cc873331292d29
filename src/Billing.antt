-- ===== src/Billing.antt =====
-- internal/billing/billing.go: balance accounts, their transactions, and the quota limits that are
-- loaded into Redis. Amounts are cents. A `Bool` says whether a statement, or the transaction as a
-- whole, succeeds; a transaction that does not changes nothing. `id` is the snowflake of ids.Next.
pub mod Accounts
pub mod Ledger
pub mod Limits
pub mod Runs
use ykt_aisaas.Base.{
  ℕ, suc, ltb, leb, ◌==◌, Bool, true, false, ◌||◌, ◌&&◌, not, ℤ, pos, ◌+ℤ◌, ◌-ℤ◌, leb_ℤ, ltb_ℤ,
  Option, none, some, List, [], ◌∷◌, ◌++◌, length, Text, if◌then◌else◌,
}
use ykt_aisaas.Redis.{Redis, Link}
use ykt_aisaas.Redisx.{minus, quota_set_limit}

-- A row of ykt_aisaas_balance.
pub record Account : Type 0 where
  pub tenant_id : ℕ
  pub balance_cents : ℤ
  pub total_recharged : ℤ
  pub total_consumed : ℤ

pub data TxnType : Type 0 where
  recharged consumed : TxnType

-- A row of ykt_aisaas_balance_transaction.
pub record Txn : Type 0 where
  pub id : ℕ
  pub tenant_id : ℕ
  pub kind : TxnType
  pub amount_cents : ℤ
  pub balance_after : ℤ
  pub biz_type : Text
  pub biz_ref_id : Text
  pub remark : Text

pub record Books : Type 0 where
  pub accounts : List Account
  pub txns : List Txn

-- A SELECT of one column by tenant; 0 where there is no row.
unfoldable pub column_of : (Account → ℤ) → ℕ → List Account → ℤ
column_of g t [] = pos 0
column_of g t (a ∷ accounts) = if a.tenant_id == t then g a else column_of g t accounts

unfoldable pub has_account : ℕ → List Account → Bool
has_account t [] = false
has_account t (a ∷ accounts) = a.tenant_id == t || has_account t accounts

-- UPDATE ... WHERE tenantId = ?; its affected rows, and the table.
unfoldable pub update_account : ℕ → (Account → Account) → List Account → ℕ × List Account
update_account t f [] = (0, [])
update_account t f (a ∷ accounts) =
    let (n, rest) = update_account t f accounts in
    if a.tenant_id == t then (suc n, f a ∷ rest) else (n, a ∷ rest)

-- INSERT IGNORE of an account that starts at 0 (ensureAccount): `tenantId` is unique.
unfoldable pub ensure_account : ℕ → List Account → List Account
unfolding has_account
ensure_account t accounts =
    if has_account t accounts
    then accounts
    else accounts
      ++ record {
        tenant_id = t;
        balance_cents = pos 0;
        total_recharged = pos 0;
        total_consumed = pos 0;
      }
        ∷ []

unfoldable pub credit : ℤ → Account → Account
credit amount a = record a {
  balance_cents = a.balance_cents +ℤ amount;
  total_recharged = a.total_recharged +ℤ amount;
}

unfoldable pub debit : ℤ → Account → Account
debit cost a = record a {
  balance_cents = a.balance_cents -ℤ cost;
  total_consumed = a.total_consumed +ℤ cost;
}

pub record Balance : Type 0 where
  pub tenant_id : ℕ
  pub balance_cents : ℤ
  pub total_recharged : ℤ
  pub total_consumed : ℤ

-- GetBalance, where the database answers: zeros for a tenant without account.
unfoldable pub get_balance : ℕ → List Account → Balance
unfolding column_of
get_balance t accounts = record {
  tenant_id = t;
  balance_cents = column_of (λ (a : Account). a.balance_cents) t accounts;
  total_recharged = column_of (λ (a : Account). a.total_recharged) t accounts;
  total_consumed = column_of (λ (a : Account). a.total_consumed) t accounts;
}

pub data Recharged : Type 0 where
  invalid_param ensure_failed internal : Recharged
  balance : Balance → Recharged

-- The body of Recharge's transaction.
unfoldable pub recharge_tx : ℕ → ℕ → ℤ → Text → Books → Books
unfolding update_account column_of credit
recharge_tx id t amount remark b =
    let accounts = (update_account t (credit amount) b.accounts).1 in
    let after = column_of (λ (a : Account). a.balance_cents) t accounts in
    record {
      accounts = accounts;
      txns =
          b.txns
          ++ record {
            id = id;
            tenant_id = t;
            kind = recharged;
            amount_cents = amount;
            balance_after = after;
            biz_type = [];
            biz_ref_id = [];
            remark = remark;
          }
            ∷ [];
    }

-- Recharge
unfoldable pub recharge : Bool → Bool → Bool → ℕ → ℕ → ℤ → Text → Books → Recharged × Books
unfolding recharge_tx ensure_account get_balance
recharge ensured committed read id t amount remark b =
    let opened = record b { accounts = ensure_account t b.accounts } in
    let paid = recharge_tx id t amount remark opened in
    if leb_ℤ amount (pos 0)
    then (invalid_param, b)
    else if not ensured
    then (ensure_failed, b)
    else if not committed
    then (internal, opened)
    else (if read then balance (get_balance t paid.accounts) else internal, paid)

-- The body of Consume's transaction: a tenant without account gets one.
unfoldable pub consume_tx : ℕ → ℕ → Text → ℤ → Text → Books → Books
unfolding update_account column_of ensure_account debit
consume_tx id t biz_type cost ref_id b =
    let (affected, first) = update_account t (debit cost) b.accounts in
    let accounts =
      if affected == 0 then (update_account t (debit cost) (ensure_account t first)).1 else first in
    let after = column_of (λ (a : Account). a.balance_cents) t accounts in
    record {
      accounts = accounts;
      txns =
          b.txns
          ++ record {
            id = id;
            tenant_id = t;
            kind = consumed;
            amount_cents = minus cost;
            balance_after = after;
            biz_type = biz_type;
            biz_ref_id = ref_id;
            remark = [];
          }
            ∷ [];
    }

-- Consume: an error is only logged.
unfoldable pub consume : Bool → ℕ → ℕ → Text → ℤ → Text → Books → Books
unfolding consume_tx
consume committed id t biz_type cost ref_id b =
    if leb_ℤ cost (pos 0) && leb_ℤ (pos 0) cost
    then b
    else (if committed then consume_tx id t biz_type cost ref_id b else b)

-- ListTxns: the newest first, by id; a limit out of range is 20.
unfoldable pub txn_limit : ℤ → ℤ
txn_limit limit = if leb_ℤ limit (pos 0) || ltb_ℤ (pos 100) limit then pos 20 else limit

-- What the transactions of one billing service do, in the order in which they commit: a recharge
-- or a consumption with what the database does to it.
pub data Op : Type 0 where
  recharge_op : (ensured committed read : Bool) → (id t : ℕ) → ℤ → Text → Op
  consume_op : (committed : Bool) → (id t : ℕ) → Text → ℤ → Text → Op

unfoldable pub perform : Op → Books → Books
unfolding recharge consume
perform (recharge_op ensured committed read id t amount remark) b =
    (recharge ensured committed read id t amount remark b).1
perform (consume_op committed id t biz_type cost ref_id) b =
    consume committed id t biz_type cost ref_id b

unfoldable pub perform_all : List Op → Books → Books
unfolding perform
perform_all [] b = b
perform_all (op ∷ ops) b = perform_all ops (perform op b)

-- A row of ykt_aisaas_quota whose period is the present one.
pub record QuotaRow : Type 0 where
  pub tenant_id : ℕ
  pub dimension : Text
  pub limit_value : ℤ

module _ (R : Redis) where
  open R use {Db}

  load_rows : Text → ℕ → List (Link × QuotaRow) → Db → (ℕ × Bool) × Db
  unfolding quota_set_limit
  load_rows ym n [] d = ((n, true), d)
  load_rows ym n ((link, r) ∷ rows) d =
      let (set, d') = quota_set_limit R link ym r.tenant_id r.dimension r.limit_value d in
      let rest = load_rows ym n rows d' in if set then rest else ((0, false), d')

  -- LoadAll on the rows that the SELECT gives, each with what becomes of its command: the count and
  -- whether the error is nil. It stops at the first command that fails.
  unfoldable pub load_all : Text → List (Link × QuotaRow) → Db → (ℕ × Bool) × Db
  unfolding load_rows
  load_all ym rows d = load_rows ym (length rows) rows d
