-- ===== src/Books/Transactions/Open.antt =====
-- The conditional puts of a new account and of a new merchant.
use pay_ledger.Prelude.{ℕ, String, ◌≡◌, refl, none, [], ◌∷◌, subst, true, arith}
use pay_ledger.Prelude.Int.{pos, int_laws, parts_of_eq}
use pay_ledger.Store.Key.{ledger_pk_name}
use pay_ledger.Store.Table.{Table, lookup, insert}
use pay_ledger.Store.Transact.{attribute_not_exists, holds, insert_all}
use pay_ledger.Domain.{Merchant}
use pay_ledger.Runtime.{Runtime}
use pay_ledger.Ledger.Accounts.{account_key, account_item}
use pay_ledger.Ledger.Merchants.{merchant_key, merchant_item}
use pay_ledger.Books.View.{IsSound, BalancedAt, held}
use pay_ledger.Books.Writes.{Change-new, absent, IsAside-merchant}
use pay_ledger.Books.Conserved.Transfers.{Conserves-opened, Conserves-merchant}
use pay_ledger.Books.Moves.{open-MovesAccount}
use pay_ledger.Books.Advance.{Advances, advance_credit, advance_aside, sound_rows}

-- A new account has no money and no holds; one that is there is not touched.
pub open-Advances :
    (t : Table) (b : String)
    → IsSound t
    → holds (attribute_not_exists ledger_pk_name) (lookup (account_key b) t) ≡ true
    → Advances t (insert (account_key b) (account_item b) t)
unfolding insert_all
open-Advances t b sound h =
    let none_there = absent t (sound_rows sound) (account_key b) h in
    let books : BalancedAt none (held b t) =
      subst (λ o. BalancedAt o (held b t)) none_there (sound.balanced b) in
    advance_credit t sound b (account_item b) (pos 0) (pos 0) refl refl (omega arith) []
      (Change-new t (account_key b) (account_item b) none_there refl (λ e. cc) refl, tt) tt
      (omega (int_laws, parts_of_eq books)) (open-MovesAccount t b none_there books)
      (Conserves-opened t b none_there)

pub merchant-Advances :
    (rt : Runtime) (t : Table) (m : Merchant) (now : ℕ)
    → IsSound t
    → holds (attribute_not_exists ledger_pk_name) (lookup (merchant_key m.merchant_id) t) ≡ true
    → Advances t (insert (merchant_key m.merchant_id) (merchant_item rt m now) t)
unfolding insert_all
merchant-Advances rt t m now sound h =
    let none_there = absent t (sound_rows sound) (merchant_key m.merchant_id) h in
    advance_aside t ((merchant_key m.merchant_id, merchant_item rt m now) ∷ []) sound
      (
        Change-new t (merchant_key m.merchant_id) (merchant_item rt m now) none_there refl (λ e. cc)
            refl,
        tt,
      )
      (IsAside-merchant m.merchant_id, tt) (Conserves-merchant rt t m now none_there)
