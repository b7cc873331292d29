-- ===== src/Billing/Ledger.antt =====
-- The accounts and the transactions of billing.go agree, and what each operation does to a balance.
use ykt_aisaas.Base.{
  ℕ, ◌≡◌, refl, ap, ◌∙◌, Bool, true, false, inl, inr, List, [], ◌∷◌, ◌++◌, arith, Text, ℤ, pos,
  ◌+ℤ◌, ◌-ℤ◌, int_laws, ◌==◌, if◌then◌else◌, Bool-cases, ==_iff,
}
use ykt_aisaas.Redisx.{minus}
use ykt_aisaas.Billing.{
  Account, Txn, Books, column_of, has_account, update_account, ensure_account, credit, debit,
  recharge_tx, consume_tx,
}
use ykt_aisaas.Billing.Accounts.{
  column_of-update, update_affects, update_missing, new_account, column_of-ensured_update,
  column_of-ensure,
}

abbrev pub balance_of : ℕ → List Account → ℤ
balance_of = column_of (λ (a : Account). a.balance_cents)

abbrev pub recharged_of : ℕ → List Account → ℤ
recharged_of = column_of (λ (a : Account). a.total_recharged)

abbrev pub consumed_of : ℕ → List Account → ℤ
consumed_of = column_of (λ (a : Account). a.total_consumed)

-- An amount added for one tenant.
abbrev pub plus_for : ℕ → ℕ → ℤ → ℤ → ℤ
plus_for t u delta n = if t == u then n +ℤ delta else n

-- A debit reaches its tenant's columns whether or not there was an account.
pub consume_column :
    (g : Account → ℤ) (delta : ℤ) (id t u : ℕ) (biz ref : Text) (cost : ℤ) (b : Books)
    → g (new_account t) ≡ pos 0
    → ((a : Account) → g (debit cost a) ≡ g a +ℤ delta)
    → column_of g u (consume_tx id t biz cost ref b).accounts
      ≡ plus_for t u delta (column_of g u b.accounts)
unfolding consume_tx
consume_column g delta id t u biz ref cost b zero_start adds =
    elim (Bool-cases (has_account t b.accounts)) [
      | inl old ↦ ground (
        arith,
        update_affects t (debit cost) b.accounts,
        column_of-update g delta t u (debit cost) b.accounts (λ a. unfold debit in refl) adds,
      )
      | inr new ↦
          rw
            (
              update_affects t (debit cost) b.accounts,
              new,
              update_missing t (debit cost) b.accounts new,
            )
            (column_of-ensured_update g delta t u (debit cost) b.accounts zero_start
              (λ a. unfold debit in refl) adds)
    ]

-- The sum of a tenant's transactions, and the balance that the last of them notes.
unfoldable pub total : ℕ → List Txn → ℤ
total u [] = pos 0
total u (x ∷ txns) = if x.tenant_id == u then x.amount_cents +ℤ total u txns else total u txns

last_from : ℤ → ℕ → List Txn → ℤ
last_from n u [] = n
last_from n u (x ∷ txns) = last_from (if x.tenant_id == u then x.balance_after else n) u txns

unfoldable pub last_noted : ℕ → List Txn → ℤ
unfolding last_from
last_noted u txns = last_from (pos 0) u txns

total-append :
    (u : ℕ) (txns : List Txn) (x : Txn)
    → total u (txns ++ x ∷ []) ≡ plus_for x.tenant_id u x.amount_cents (total u txns)
unfolding total
total-append u [] x = elim (Bool-cases (x.tenant_id == u)) [
  | inl same ↦ rw same (omega int_laws)
  | inr other ↦ rw other refl
]
total-append u (y ∷ txns) x =
    ground (arith, total-append u txns x, regroup y.amount_cents (total u txns) x.amount_cents)
  where
    regroup : (a b c : ℤ) → a +ℤ (b +ℤ c) ≡ a +ℤ b +ℤ c
    regroup a b c = omega int_laws

last_from-append :
    (n : ℤ) (u : ℕ) (txns : List Txn) (x : Txn)
    → last_from n u (txns ++ x ∷ [])
      ≡ (if x.tenant_id == u then x.balance_after else last_from n u txns)
unfolding last_from
last_from-append n u [] x = refl
last_from-append n u (y ∷ txns) x =
    last_from-append (if y.tenant_id == u then y.balance_after else n) u txns x

-- The books agree: for every tenant the balance is the sum of the transactions, the recharges less
-- the consumption, and what the last transaction noted.
pub record IsBalanced (b : Books) : Type 0 where
  pub sums : (u : ℕ) → balance_of u b.accounts ≡ total u b.txns
  pub columns :
      (u : ℕ) → balance_of u b.accounts ≡ recharged_of u b.accounts -ℤ consumed_of u b.accounts
  pub noted : (u : ℕ) → last_noted u b.txns ≡ balance_of u b.accounts

net_sum : (r c i o : ℤ) → r -ℤ c +ℤ (i -ℤ o) ≡ r +ℤ i -ℤ (c +ℤ o)
net_sum r c i o = omega int_laws

net_columns :
    (mine : Bool) (n r c amount more_in more_out : ℤ) {n' r' c' : ℤ}
    → n ≡ r -ℤ c
    → amount ≡ more_in -ℤ more_out
    → n' ≡ (if mine then n +ℤ amount else n)
    → r' ≡ (if mine then r +ℤ more_in else r)
    → c' ≡ (if mine then c +ℤ more_out else c)
    → n' ≡ r' -ℤ c'
net_columns true n r c amount more_in more_out h net en er ec =
    rw (en, er, ec, h, net) (net_sum r c more_in more_out)
net_columns false n r c amount more_in more_out h net en er ec = rw (en, er, ec) h

-- One more transaction, with the columns that it changes.
posted-IsBalanced :
    (b : Books) (accounts : List Account) (x : Txn) (more_in more_out : ℤ)
    → IsBalanced b
    → x.amount_cents ≡ more_in -ℤ more_out
    → x.balance_after ≡ balance_of x.tenant_id accounts
    → ((u : ℕ)
        → balance_of u accounts ≡ plus_for x.tenant_id u x.amount_cents (balance_of u b.accounts))
    → ((u : ℕ)
        → recharged_of u accounts ≡ plus_for x.tenant_id u more_in (recharged_of u b.accounts))
    → ((u : ℕ)
        → consumed_of u accounts ≡ plus_for x.tenant_id u more_out (consumed_of u b.accounts))
    → IsBalanced (record { accounts = accounts; txns = b.txns ++ x ∷ [] })
posted-IsBalanced b accounts x more_in more_out h net after bal rech cons = record {
  sums = λ u. ground (arith, bal u, total-append u b.txns x, h.sums u);
  columns = λ u.
      net_columns (x.tenant_id == u) (balance_of u b.accounts) (recharged_of u b.accounts)
        (consumed_of u b.accounts) x.amount_cents more_in more_out (h.columns u) net (bal u)
        (rech u) (cons u);
  noted = λ u. elim (Bool-cases (x.tenant_id == u)) [
    | inl same ↦
        unfold last_noted in
        rw (last_from-append (pos 0) u b.txns x, same)
          (after ∙ ap (λ (t : ℕ). balance_of t accounts) ((==_iff x.tenant_id u).0 same))
    | inr other ↦
        unfold last_noted in
        rw (last_from-append (pos 0) u b.txns x, other) (ground (arith, bal u, h.noted u))
  ];
}

adds_nothing : (n : ℤ) → n ≡ n +ℤ pos 0
adds_nothing n = omega int_laws

takes_away : (n c : ℤ) → n -ℤ c ≡ n +ℤ minus c
takes_away n c = omega int_laws

pub consume_tx-IsBalanced :
    (id t : ℕ) (biz ref : Text) (cost : ℤ) (b : Books)
    → IsBalanced b
    → IsBalanced (consume_tx id t biz cost ref b)
unfolding consume_tx
consume_tx-IsBalanced id t biz ref cost b h =
    posted-IsBalanced b (consume_tx id t biz cost ref b).accounts _ (pos 0) cost h refl refl
      (λ u.
        consume_column (λ (a : Account). a.balance_cents) (minus cost) id t u biz ref cost b refl
          (λ a. unfold debit in takes_away a.balance_cents cost))
      (λ u.
        consume_column (λ (a : Account). a.total_recharged) (pos 0) id t u biz ref cost b refl
          (λ a. unfold debit in adds_nothing a.total_recharged))
      (λ u.
        consume_column (λ (a : Account). a.total_consumed) cost id t u biz ref cost b refl
          (λ a. unfold debit in refl))

pub recharge_tx-IsBalanced :
    (id t : ℕ) (amount : ℤ) (remark : Text) (b : Books)
    → IsBalanced b
    → IsBalanced
        (recharge_tx id t amount remark (record b { accounts = ensure_account t b.accounts }))
unfolding recharge_tx
recharge_tx-IsBalanced id t amount remark b h =
    posted-IsBalanced b (update_account t (credit amount) (ensure_account t b.accounts)).1 _ amount
      (pos 0) h (takes_nothing amount) refl
      (λ u.
        column_of-ensured_update (λ (a : Account). a.balance_cents) amount t u (credit amount)
          b.accounts refl (λ a. unfold credit in refl) (λ a. unfold credit in refl))
      (λ u.
        column_of-ensured_update (λ (a : Account). a.total_recharged) amount t u (credit amount)
          b.accounts refl (λ a. unfold credit in refl) (λ a. unfold credit in refl))
      (λ u.
        column_of-ensured_update (λ (a : Account). a.total_consumed) (pos 0) t u (credit amount)
          b.accounts refl (λ a. unfold credit in refl)
          (λ a. unfold credit in adds_nothing a.total_consumed))
  where
    takes_nothing : (n : ℤ) → n ≡ n -ℤ pos 0
    takes_nothing n = omega int_laws

pub opened-IsBalanced :
    (t : ℕ) (b : Books)
    → IsBalanced b
    → IsBalanced (record b { accounts = ensure_account t b.accounts })
opened-IsBalanced t b h = record {
  sums = λ u. rw (same_balance u) (h.sums u);
  columns = λ u.
      rw
        (
          same_balance u,
          column_of-ensure (λ (a : Account). a.total_recharged) t u b.accounts refl,
          column_of-ensure (λ (a : Account). a.total_consumed) t u b.accounts refl,
        )
        (h.columns u);
  noted = λ u. rw (same_balance u) (h.noted u);
}
  where
    same_balance : (u : ℕ) → balance_of u (ensure_account t b.accounts) ≡ balance_of u b.accounts
    same_balance u = column_of-ensure (λ (a : Account). a.balance_cents) t u b.accounts refl
