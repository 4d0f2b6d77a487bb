-- ===== src/Assets/Sorting.antt =====
-- The order of the transactions of an asset, `compareTransactions`
-- (`backend/src/lib/asset-accounting.ts`).
use demanage.Prelude.{◌≡◌, refl, ap, ◌∙◌, inl, inr, List, [], ◌∷◌, All, Bool-cases}
use demanage.Prelude.Int.{ℤ, ◌+ℤ◌, int_laws}
use demanage.Billing.Charges.Totals.{sum_of}
use demanage.Assets.{AccountingTransaction, comes_after, insert_transaction, sort_transactions}

insert_transaction-All {κ} :
    {D : Type 0} (P : AccountingTransaction D → Type κ) (t : AccountingTransaction D)
    (us : List (AccountingTransaction D))
    → P t
    → All P us
    → All P (insert_transaction t us)
unfolding insert_transaction
insert_transaction-All P t [] p h = (p, tt)
insert_transaction-All P t (u ∷ us) p h = elim (Bool-cases (comes_after t u)) [
  | inl after ↦ rw after (h.0, insert_transaction-All P t us p h.1)
  | inr before ↦ rw before (p, h)
]

pub sort_transactions-All {κ} :
    {D : Type 0} (P : AccountingTransaction D → Type κ) (ts : List (AccountingTransaction D))
    → All P ts
    → All P (sort_transactions ts)
unfolding sort_transactions
sort_transactions-All P [] h = tt
sort_transactions-All P (t ∷ ts) h =
    insert_transaction-All P t (sort_transactions ts) h.0 (sort_transactions-All P ts h.1)

sum_of-insert_transaction :
    {D : Type 0} (f : AccountingTransaction D → ℤ) (t : AccountingTransaction D)
    (us : List (AccountingTransaction D))
    → sum_of f (insert_transaction t us) ≡ f t +ℤ sum_of f us
unfolding insert_transaction
sum_of-insert_transaction f t [] = refl
sum_of-insert_transaction f t (u ∷ us) = elim (Bool-cases (comes_after t u)) [
  | inl after ↦ rw (after, sum_of-insert_transaction f t us) (omega int_laws)
  | inr before ↦ rw before refl
]

pub sum_of-sort_transactions :
    {D : Type 0} (f : AccountingTransaction D → ℤ) (ts : List (AccountingTransaction D))
    → sum_of f (sort_transactions ts) ≡ sum_of f ts
unfolding sort_transactions
sum_of-sort_transactions f [] = refl
sum_of-sort_transactions f (t ∷ ts) =
    sum_of-insert_transaction f t (sort_transactions ts)
    ∙ ap (λ s. f t +ℤ s) (sum_of-sort_transactions f ts)
