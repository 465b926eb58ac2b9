-- ===== src/Ledger/Authorizations/Refusal.antt =====
-- The guards of the transactions of a hold: when they write nothing, and what they report.
use pay_ledger.Prelude.{
  String, ◌≡◌, ◌≢◌, refl, none, some, [], ◌∷◌, false, get_elem?, inl, inr, Bool-cases, some_inj,
}
use pay_ledger.Prelude.Int.{ℤ, ◌≤ℤ◌, lt-leb_ℤ}
use pay_ledger.Store.Item.{str, num, Item}
use pay_ledger.Store.Table.{Table, lookup}
use pay_ledger.Store.Transact.{
  WriteItem, plan, reasons, verdict, verdict_on, condition_failed, conditional_check_failed, holds,
  equals, at_least,
}
use pay_ledger.Store.Transact.Inversion.{equals-holds}
use pay_ledger.Store.Transact.Refusal.{refused-plan}
use pay_ledger.Domain.{Authorization, AuthorizationStatus, captured, voided, expired}
use pay_ledger.Program
use pay_ledger.Program.{raise, transaction_canceled}
use pay_ledger.Runtime.{Runtime}
use pay_ledger.Ledger.Accounts.{account_key}
use pay_ledger.Ledger.Authorizations.{hold_key, insert_canceled}
use pay_ledger.Ledger.Authorizations.Items.{
  reserve, close_hold, hold_items, capture_items, void_items, expire_items, release, debit_current,
  credit_payable,
}

closed_verdict :
    (t : Table) (b sort_key : String) (row : Item)
    → lookup (hold_key b sort_key) t ≡ some row
    → row "status" ≢ some (str "PENDING")
    → (status : AuthorizationStatus) (now : String)
    → verdict (close_hold b sort_key status now) t ≡ condition_failed
unfolding verdict verdict_on
closed_verdict t b sort_key row found closed status now =
    elim (Bool-cases (holds (equals "status" (str "PENDING")) (some row))) [
      | inl e ↦
          let (old, same, is) = equals-holds "status" (str "PENDING") (some row) e in
          absurd (closed (rw (some_inj same) is))
      | inr e ↦ rw (found, e) refl
    ]

too_little :
    (row : Item) (available amount : ℤ)
    → row "available_balance" ≡ some (num available)
    → ¬ (amount ≤ℤ available)
    → holds (at_least "available_balance" amount) (some row) ≡ false
unfolding holds
too_little row available amount has short =
    let enough = lt-leb_ℤ amount available short in rw (has, holds) enough

short_verdict :
    (t : Table) (b : String) (row : Item) (available amount : ℤ)
    → lookup (account_key b) t ≡ some row
    → row "available_balance" ≡ some (num available)
    → ¬ (amount ≤ℤ available)
    → verdict (reserve b amount) t ≡ condition_failed
unfolding verdict verdict_on
short_verdict t b row available amount found has short =
    rw (found, too_little row available amount has short) refl

module _ (t : Table) (a : Authorization) (b : String) (row : Item)
    (found : lookup (hold_key b a.sort_key) t ≡ some row)
    (closed : row "status" ≢ some (str "PENDING")) where
  -- Where the table has an authorization whose status is not PENDING, a capture, a void and an
  -- expiry of it write nothing, and report the positions at which the code looks for the guard: 4,
  -- 1 and 1.
  pub closed_hold-plan :
      (now transaction_id : String) (w : WriteItem)
      → let captures = capture_items a b now transaction_id w in
        let voids = void_items a b now w in
        let expires = expire_items b a.amount a.sort_key now in
        (plan captures t ≡ none)
        × (get_elem? (reasons captures t) 4 ≡ some conditional_check_failed)
        × (plan voids t ≡ none)
        × (get_elem? (reasons voids t) 1 ≡ some conditional_check_failed)
        × (plan expires t ≡ none)
        × (get_elem? (reasons expires t) 1 ≡ some conditional_check_failed)
  closed_hold-plan now transaction_id w =
      let refuse = closed_verdict t b a.sort_key row found closed in
      let (c, c') =
        refused-plan (debit_current b a.amount ∷ credit_payable a.merchant_id a.amount ∷ _ ∷ _ ∷ [])
          _ (w ∷ []) t (refuse captured now) in
      let (v, v') = refused-plan (release b a.amount ∷ []) _ (w ∷ []) t (refuse voided now) in
      let (x, x') = refused-plan (release b a.amount ∷ []) _ [] t (refuse expired now) in
      (c, c', v, v', x, x')

module _ (rt : Runtime) (t : Table) (a : Authorization) (row : Item) (available : ℤ)
    (found : lookup (account_key a.account_id) t ≡ some row)
    (has : row "available_balance" ≡ some (num available)) (short : ¬ (a.amount ≤ℤ available)) where
  -- A hold for more than the available balance of the account writes nothing, and the handling of
  -- its cancellation raises `InsufficientFunds`, whatever the other write of the transaction is.
  pub short_hold-plan :
      (key : String) (w : WriteItem)
      → (plan (hold_items rt a w) t ≡ none)
        × (insert_canceled rt key (transaction_canceled (reasons (hold_items rt a w) t))
            ≡ raise Program.insufficient_funds)
  unfolding insert_canceled
  short_hold-plan key w =
      let (p, r) =
        refused-plan [] (reserve a.account_id a.amount) (_ ∷ w ∷ []) t
          (short_verdict t a.account_id row available a.amount found has short) in
      (p, rw r refl)
