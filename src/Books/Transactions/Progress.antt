-- ===== src/Books/Transactions/Progress.antt =====
-- The transactions that nothing stands against: on a sound table they go through.
use pay_ledger.Prelude.{ℕ, String, ◌≡◌, refl, eq_refl, subst, true, Option, none, some, [], ◌∷◌}
use pay_ledger.Prelude.Int.{ℤ}
use pay_ledger.Store.Item.{str, num, Item}
use pay_ledger.Store.Key.{ledger_pk_name}
use pay_ledger.Store.Table.{Table, lookup}
use pay_ledger.Store.Transact.{holds, equals, always, attribute_not_exists}
use pay_ledger.Store.Transact.Progress.{
  Passes, Passes-nil, Passes-cons, put-passes, plus-passes, minus-passes, constants-passes,
}
use pay_ledger.Domain.{Authorization, AuthorizationStatus, Response, captured, voided, status_value}
use pay_ledger.Runtime.{Runtime}
use pay_ledger.Utils.{RequestModel}
use pay_ledger.Idempotency.{record_item, record_write, idempotency_item_key}
use pay_ledger.Ledger.Accounts.{account_key}
use pay_ledger.Ledger.Merchants.{merchant_key}
use pay_ledger.Ledger.Authorizations.{hold_key}
use pay_ledger.Ledger.Authorizations.Items.{close_hold, capture_items, void_items}
use pay_ledger.Books.View.{IsSound, BalancedAt, held}

equals-true :
    (name s : String) (old : Item)
    → old name ≡ some (str s)
    → holds (equals name (str s)) (some old) ≡ true
unfolding holds
equals-true name s old read = rw (holds, read) (eq_refl s)

not_exists-true :
    (name : String) (o : Option Item) → o ≡ none → holds (attribute_not_exists name) o ≡ true
unfolding holds
not_exists-true name o h = rw h refl

module _ (rt : Runtime) (t : Table) (key : String) (response : Response) (at : ℕ)
    (unused : lookup (idempotency_item_key key) t ≡ none) where
  record-Passes :
      (request : Option RequestModel) → Passes (record_write rt key request response at ∷ []) t
  record-Passes request =
      Passes-cons t (record_write rt key request response at) [] _
        (put-passes t (record_item rt key request response at) (attribute_not_exists ledger_pk_name)
          (not_exists-true ledger_pk_name _ unused))
        (Passes-nil t)

  close-Passes :
      (b sort_key : String) (status : AuthorizationStatus) (now : String) (row : Item)
      → lookup (hold_key b sort_key) t ≡ some row
      → row "status" ≡ some (str "PENDING")
      → Passes (close_hold b sort_key status now ∷ record_write rt key none response at ∷ []) t
  close-Passes b sort_key status now row found open_still =
      Passes-cons t (close_hold b sort_key status now) _ _
        (constants-passes t (hold_key b sort_key) row found (equals "status" (str "PENDING"))
          (equals-true "status" "PENDING" row open_still) "status" "updated_at"
          (str (status_value status)) (str now))
        (record-Passes none)

  module _ (sound : IsSound t) (b : String) (account : Item)
      (there : lookup (account_key b) t ≡ some account) where
    books : BalancedAt (some account) (held b t)
    books = subst (λ o. BalancedAt o (held b t)) there (sound.balanced b)

    -- On a sound table, a capture of a hold that is PENDING goes through, whatever the balances are,
    -- where the account and the merchant are there, with a number for the payable balance, and the
    -- idempotency key is unused.
    pub capture_items-Passes :
        (a : Authorization) (now id : String) (row shop : Item) (payable : ℤ)
        → lookup (hold_key b a.sort_key) t ≡ some row
        → row "status" ≡ some (str "PENDING")
        → lookup (merchant_key a.merchant_id) t ≡ some shop
        → shop "payable_balance" ≡ some (num payable)
        → Passes (capture_items a b now id (record_write rt key none response at)) t
    unfolding holds
    capture_items-Passes a now id row shop payable found open_still sells owed =
        Passes-cons t _ _ _
          (minus-passes t (account_key b) account there always refl "current_balance" books.1
            a.amount books.3)
          (Passes-cons t _ _ _
            (plus-passes t (merchant_key a.merchant_id) shop sells always refl "payable_balance"
              payable a.amount owed)
            (Passes-cons t _ _ _ (put-passes t _ always refl) (
              Passes-cons t _ _ _ (put-passes t _ always refl)
                (close-Passes b a.sort_key captured now row found open_still))))

    -- The same of a void, which needs no merchant.
    pub void_items-Passes :
        (a : Authorization) (now : String) (row : Item)
        → lookup (hold_key b a.sort_key) t ≡ some row
        → row "status" ≡ some (str "PENDING")
        → Passes (void_items a b now (record_write rt key none response at)) t
    unfolding holds
    void_items-Passes a now row found open_still =
        Passes-cons t _ _ _
          (plus-passes t (account_key b) account there always refl "available_balance" books.0
            a.amount books.2)
          (close-Passes b a.sort_key voided now row found open_still)
