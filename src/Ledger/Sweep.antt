-- ===== src/Ledger/Sweep.antt =====
-- The sweep of expired holds: `get_expired_holds` and `update_expired_holds` of shared/ledger.py.
pub mod Pages
pub mod Count
use pay_ledger.Prelude.{
  ℕ, zero, suc, ◌+◌, String, Option, none, some, List, [], ◌∷◌, ◌++◌, if◌then◌else◌,
}
use pay_ledger.Store.Item.{Item}
use pay_ledger.Store.Key.{Key, ledger_sort_key_name}
use pay_ledger.Domain.{pending, status_value}
use pay_ledger.Program.{
  Prog, pure, raise, ◌>>=◌, ◌>>◌, catch, scan, clock, date_today, transact, text_field,
  number_field, Exception, transaction_canceled, out_of_fuel,
}
use pay_ledger.Runtime.{Runtime}
use pay_ledger.Idempotency.{check_failed_at}
use pay_ledger.Ledger.Authorizations.Items.{expire_items}

-- `return items` after the last page, or the next page from its `LastEvaluatedKey`.
abbrev pub or_more : Option Key → List Item → (Key → Prog (List Item)) → Prog (List Item)
or_more none items more = pure items
or_more (some k) items more = more k

-- The `while` loop over the pages, with a bound on their number.
unfoldable pub scan_pages : ℕ → String → Option Key → List Item → Prog (List Item)
scan_pages zero today start items = raise out_of_fuel
scan_pages (suc fuel) today start items = do
  page ← scan (status_value pending) today start
  or_more page.last_evaluated_key (items ++ page.items)
      (λ k. scan_pages fuel today (some k) (items ++ page.items))

module _ (rt : Runtime) where
  unfoldable pub get_expired_holds : ℕ → Prog (List Item)
  unfolding scan_pages
  get_expired_holds fuel = do today ← date_today; scan_pages fuel (rt.date_isoformat today) none []

  -- The `except` of the loop: 0 for a hold that is skipped.
  unfoldable pub expire_canceled : Exception → Prog ℕ
  expire_canceled (transaction_canceled codes) =
      if check_failed_at 1 codes then pure 0 else raise (transaction_canceled codes)
  expire_canceled e = raise e

  -- One round of the loop: how many holds it has released.
  unfoldable pub expire_hold : String → Item → Prog ℕ
  unfolding expire_canceled
  expire_hold now hold = do
    account_id ← text_field "account_id" hold
    catch
        (do
          amount ← number_field "amount" hold
          sort_key ← text_field ledger_sort_key_name hold
          transact (expire_items account_id amount sort_key now)
          pure 1)
        expire_canceled

  unfoldable pub expire_all : String → ℕ → List Item → Prog ℕ
  unfolding expire_hold
  expire_all now expired_count [] = pure expired_count
  expire_all now expired_count (hold ∷ rest) = do
    n ← expire_hold now hold
    expire_all now (expired_count + n) rest

  unfoldable pub update_expired_holds : List Item → Prog ℕ
  unfolding expire_all
  update_expired_holds expired_holds = do now ← clock; expire_all (rt.isoformat now) 0 expired_holds
