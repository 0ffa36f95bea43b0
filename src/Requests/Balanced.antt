-- ===== src/Requests/Balanced.antt =====
-- The balances of the invoices of invoice.service.ts, over any requests.
use truckmaster.Base.{ℕ, List, [], ◌∷◌, inl, inr}
use truckmaster.Store.Transaction.{Store}
use truckmaster.Billing.Invoices.Balanced.{IsBalanced}
use truckmaster.Requests.{Request, perform, run}
use truckmaster.Requests.Steps.{Step, perform-Step}

IsBalanced-Step : (s t : Store) (j : ℕ) → Step s t → IsBalanced s j → IsBalanced t j
IsBalanced-Step s t j (inl h) balanced = rw (h j).billing balanced
IsBalanced-Step s t j (inr h) balanced = h.1 j balanced

-- An invoice whose balance is its total less its payments and credits and plus its debits has such a
-- balance after any requests; and where no invoice is there yet and no payment or adjustment names it,
-- the same holds of the invoice that requests may create.
pub run-IsBalanced :
    (rs : List Request) (s : Store) (j : ℕ) → IsBalanced s j → IsBalanced (run rs s) j
unfolding run
run-IsBalanced [] s j h = h
run-IsBalanced (r ∷ rs) s j h =
    let t = (perform r.now r.organization_id r.actor r.operation s).1 in
    run-IsBalanced rs t j
      (IsBalanced-Step s t j (perform-Step r.now r.organization_id r.actor r.operation s) h)
