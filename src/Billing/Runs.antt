-- ===== src/Billing/Runs.antt =====
-- Runs of the operations of billing.go: the books stay in agreement, and what each operation does to
-- a balance.
use ykt_aisaas.Base.{
  ℕ, ◌≡◌, refl, Bool, true, false, not, ◌&&◌, inl, inr, List, [], ◌∷◌, arith, Text, ℤ, pos, ◌+ℤ◌,
  ◌-ℤ◌, leb_ℤ, int_laws, ◌==◌, if◌then◌else◌, Bool-cases,
}
use ykt_aisaas.Redisx.{minus}
use ykt_aisaas.Billing.{
  Account, Books, Op, Recharged, balance, internal, ensure_failed, recharge_op, consume_op, credit,
  debit, recharge, consume, perform, perform_all, get_balance,
}
use ykt_aisaas.Billing.Accounts.{column_of-ensured_update}
use ykt_aisaas.Billing.Ledger.{
  balance_of, plus_for, consume_column, IsBalanced, consume_tx-IsBalanced, recharge_tx-IsBalanced,
  opened-IsBalanced,
}

-- How a recharge of a valid amount ends.
abbrev ended : Bool → Bool → Recharged → Books → Books → Books → Recharged × Books
ended ensured committed r b opened paid =
    if not ensured
    then (ensure_failed, b)
    else if not committed
    then (internal, opened)
    else (r, paid)

pick_recharge :
    (ensured committed : Bool) (r : Recharged) (b opened paid : Books)
    → IsBalanced b
    → IsBalanced opened
    → IsBalanced paid
    → IsBalanced (ended ensured committed r b opened paid).1
pick_recharge true true r b opened paid h ho hp = hp
pick_recharge true false r b opened paid h ho hp = ho
pick_recharge false true r b opened paid h ho hp = h
pick_recharge false false r b opened paid h ho hp = h

recharge-IsBalanced :
    (ensured committed read : Bool) (id t : ℕ) (amount : ℤ) (remark : Text) (b : Books)
    → IsBalanced b
    → IsBalanced (recharge ensured committed read id t amount remark b).1
unfolding recharge
recharge-IsBalanced ensured committed read id t amount remark b h =
    elim (Bool-cases (leb_ℤ amount (pos 0))) [
      | inl invalid ↦ rw invalid h
      | inr valid ↦ rw valid (
          pick_recharge ensured committed _ b _ _ h (opened-IsBalanced t b h)
            (recharge_tx-IsBalanced id t amount remark b h))
    ]

consume-IsBalanced :
    (committed : Bool) (id t : ℕ) (biz ref : Text) (cost : ℤ) (b : Books)
    → IsBalanced b
    → IsBalanced (consume committed id t biz cost ref b)
unfolding consume
consume-IsBalanced committed id t biz ref cost b h =
    elim (Bool-cases (leb_ℤ cost (pos 0) && leb_ℤ (pos 0) cost)) [
      | inl free ↦ rw free h
      | inr paid ↦ rw paid (elim (Bool-cases committed) [
        | inl ok ↦ rw ok (consume_tx-IsBalanced id t biz ref cost b h)
        | inr failed ↦ rw failed h
      ])
    ]

-- Whatever recharges and consumptions run, in whatever order, whichever of them fail and at which
-- of their statements, books that agree still agree: for every tenant the balance is the sum of its
-- transactions, what was recharged less what was consumed, and what its last transaction noted.
pub perform_all-IsBalanced :
    (ops : List Op) (b : Books) → IsBalanced b → IsBalanced (perform_all ops b)
unfolding perform_all perform
perform_all-IsBalanced [] b h = h
perform_all-IsBalanced (recharge_op ensured committed read id t amount remark ∷ ops) b h =
    perform_all-IsBalanced ops _ (recharge-IsBalanced ensured committed read id t amount remark b h)
perform_all-IsBalanced (consume_op committed id t biz cost ref ∷ ops) b h =
    perform_all-IsBalanced ops _ (consume-IsBalanced committed id t biz ref cost b h)

-- A consumption that commits takes its cost from its tenant's balance and from no other, whether
-- the tenant has an account or not, and also where the balance is less than the cost.
pub consume_balance :
    (id t u : ℕ) (biz ref : Text) (cost : ℤ) (b : Books)
    → balance_of u (consume true id t biz cost ref b).accounts
      ≡ plus_for t u (minus cost) (balance_of u b.accounts)
unfolding consume
consume_balance id t u biz ref cost b =
    elim (Bool-cases (leb_ℤ cost (pos 0) && leb_ℤ (pos 0) cost)) [
      | inl free ↦ rw free (free_of_charge (t == u) (balance_of u b.accounts) cost free)
      | inr paid ↦ rw paid (
          consume_column (λ (a : Account). a.balance_cents) (minus cost) id t u biz ref cost b refl
            (λ a. unfold debit in takes_away a.balance_cents cost))
    ]
  where
    takes_away : (n c : ℤ) → n -ℤ c ≡ n +ℤ minus c
    takes_away n c = omega int_laws

    is_zero : (cost : ℤ) → (leb_ℤ cost (pos 0) && leb_ℤ (pos 0) cost) ≡ true → cost ≡ pos 0
    is_zero cost free = ground arith

    free_of_charge :
        (mine : Bool) (n cost : ℤ)
        → (leb_ℤ cost (pos 0) && leb_ℤ (pos 0) cost) ≡ true
        → n ≡ (if mine then n +ℤ minus cost else n)
    free_of_charge true n cost free = rw (is_zero cost free) (omega int_laws)
    free_of_charge false n cost free = refl

-- A recharge that the database takes answers the tenant's balance, which is the one before plus the
-- amount, and no other tenant's balance changes.
pub recharge_outcome :
    (id t u : ℕ) (amount : ℤ) (remark : Text) (b : Books)
    → leb_ℤ amount (pos 0) ≡ false
    → ((recharge true true true id t amount remark b).0
        ≡ balance (get_balance t (recharge true true true id t amount remark b).1.accounts))
      × (balance_of u (recharge true true true id t amount remark b).1.accounts
          ≡ plus_for t u amount (balance_of u b.accounts))
unfolding recharge
recharge_outcome id t u amount remark b valid = rw valid (
  refl,
  column_of-ensured_update (λ (a : Account). a.balance_cents) amount t u (credit amount) b.accounts
      refl (λ a. unfold credit in refl) (λ a. unfold credit in refl),
)
