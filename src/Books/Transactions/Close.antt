-- ===== src/Books/Transactions/Close.antt =====
-- The end of a hold: what its row was, and what it is after the guarded state change.
use pay_ledger.Prelude.{String, ◌≡◌, refl, ◌∙◌, ap, some, sym, subst, false, ◌==◌, some_inj}
use pay_ledger.Prelude.Int.{ℤ, pos}
use pay_ledger.Store.Item.{Item}
use pay_ledger.Store.Table.{Table, lookup}
use pay_ledger.Store.Transact.{verdict, pass}
use pay_ledger.Domain.{AuthorizationStatus, status_value}
use pay_ledger.Ledger.Authorizations.{hold_key}
use pay_ledger.Ledger.Authorizations.Items.{close_hold}
use pay_ledger.Books.View.{pending_amount, IsPlaced}
use pay_ledger.Books.Held.{pending_amount-pending, pending_amount-closed}
use pay_ledger.Books.Change.{Change}
use pay_ledger.Books.Writes.{Change-close, close-pass}

module _ (t : Table) (b sort_key : String) (amount : ℤ) (placed : IsPlaced b sort_key amount t)
    (status : AuthorizationStatus) (now : String)
    (terminal : (status_value status == "PENDING") ≡ false) where
  -- The written row, and its pending amounts before and after.
  pub record IsClosed (v : Item) : Type 0 where
    pub change : Change t (hold_key b sort_key) v
    pub before : pending_amount (lookup (hold_key b sort_key) t) ≡ amount
    pub after : pending_amount (some v) ≡ pos 0

  pub close_lem : {v : Item} → verdict (close_hold b sort_key status now) t ≡ pass v → IsClosed v
  close_lem {v} p =
      let (old, found, was, written) = close-pass t (hold_key b sort_key) status now p in
      let same = some_inj (sym found ∙ placed.found) in
      record {
        change =
            subst (λ (x : Item). Change t (hold_key b sort_key) x) (sym written)
              (Change-close t (hold_key b sort_key) old status now b refl placed.prefix found was);
        before =
            ap pending_amount found
            ∙ pending_amount-pending old amount was (rw same placed.amount_kept);
        after = pending_amount-closed v (status_value status) (rw written refl) terminal;
      }
