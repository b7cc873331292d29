-- ===== src/Examples/Accounts.antt =====
-- The theorems on billing at concrete inputs.
use ykt_aisaas.Base.{refl, true, false, List, [], ◌∷◌, codes, pos, ◌-ℤ◌}
use ykt_aisaas.Redis.{Link, answered}
use ykt_aisaas.Redisx.{dim_llm_tokens_in, dim_tts_chars}
use ykt_aisaas.Billing.{Books, Op, recharge_op, consume_op, perform_all, column_of, QuotaRow}
use ykt_aisaas.Billing.Ledger.{IsBalanced, total, last_noted}
use ykt_aisaas.Billing.Runs.{perform_all-IsBalanced}

abbrev no_books : Books
no_books = record { accounts = []; txns = [] }

no_books-IsBalanced : IsBalanced no_books
unfolding column_of total last_noted ◌-ℤ◌
no_books-IsBalanced = record { sums = λ u. refl; columns = λ u. refl; noted = λ u. refl }

abbrev day : List Op
day =
    recharge_op true true true 1 7 (pos 500) (codes "card")
    ∷ consume_op true 2 8 (codes "llm") (pos 30) (codes "r")
    ∷ consume_op false 3 7 (codes "llm") (pos 30) (codes "r")
    ∷ recharge_op true false true 4 9 (pos 10) []
    ∷ []

perform_all-IsBalanced_example : IsBalanced (perform_all day no_books)
perform_all-IsBalanced_example = perform_all-IsBalanced day no_books no_books-IsBalanced

abbrev quota_rows : List (Link × QuotaRow)
quota_rows =
    (answered, record { tenant_id = 7; dimension = dim_llm_tokens_in; limit_value = pos 900 })
    ∷ (answered, record { tenant_id = 7; dimension = dim_tts_chars; limit_value = pos 5 })
    ∷ []
