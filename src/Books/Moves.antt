-- ===== src/Books/Moves.antt =====
-- The moves of the book that the transactions make, from what they have read and written.
use pay_ledger.Prelude.{String, ◌≡◌, refl, true, none, some, subst}
use pay_ledger.Prelude.Int.{ℤ, pos, ◌+ℤ◌, ◌-ℤ◌, ◌≤ℤ◌, int_laws}
use pay_ledger.Store.Item.{num, Item}
use pay_ledger.Store.Key.{Key, is_hold}
use pay_ledger.Store.Table.{Table, lookup}
use pay_ledger.Ledger.Accounts.{account_key}
use pay_ledger.Books.View.{held, pending_amount}
use pay_ledger.Books.Spec.{Balance, Sets, Move}
use pay_ledger.Books.Abstraction.{book, account_of_book, no_account_of_book, pending_of_book}
use pay_ledger.Books.Advance.{MovesAccount, MovesHold}

pub open-MovesAccount :
    (t : Table) (b : String)
    → lookup (account_key b) t ≡ none
    → held b t ≡ pos 0
    → MovesAccount t b (record { current = pos 0; reserved = held b t })
open-MovesAccount t b missing nothing x sets keeps =
    Move.open_account b (no_account_of_book t b missing)
      (subst (λ (h : ℤ). Sets b (record { current = pos 0; reserved = h }) (book t) (book x))
        nothing sets)
      keeps

module _ (t : Table) (b : String) (old : Item) (current : ℤ)
    (found : lookup (account_key b) t ≡ some old)
    (has : old "current_balance" ≡ some (num current)) where
  before : Balance
  before = record { current = current; reserved = held b t }

  pub deposit-MovesAccount :
      (n : ℤ)
      → pos 0 ≤ℤ n
      → MovesAccount t b (record { current = current +ℤ n; reserved = held b t })
  unfolding before
  deposit-MovesAccount n nonneg x sets keeps =
      Move.deposit b n before _ nonneg (account_of_book t b old current found has) refl refl sets
        keeps

  module _ (k : Key) (prefix : is_hold k ≡ true) (n : ℤ) (nonneg : pos 0 ≤ℤ n) where
    pub place-MovesHold :
        pending_amount (lookup k t) ≡ pos 0
        → held b t +ℤ n -ℤ pos 0 ≤ℤ current
        → MovesHold t b (record { current = current; reserved = held b t +ℤ n -ℤ pos 0 }) k n
    unfolding before
    place-MovesHold free covered x sets marks =
        Move.place b k n before _ nonneg (account_of_book t b old current found has) refl
          (omega int_laws) covered (pending_of_book t k (pos 0) prefix free) sets marks

    module _ (was : pending_amount (lookup k t) ≡ n) where
      pub capture-MovesHold :
          MovesHold t b
            (record { current = current -ℤ n; reserved = held b t +ℤ pos 0 -ℤ n })
            k
            (pos 0)
      unfolding before
      capture-MovesHold x sets marks =
          Move.capture b k n before _ nonneg (account_of_book t b old current found has) refl
            (omega int_laws) (pending_of_book t k n prefix was) sets marks

      pub release-MovesHold :
          MovesHold t b (record { current = current; reserved = held b t +ℤ pos 0 -ℤ n }) k (pos 0)
      unfolding before
      release-MovesHold x sets marks =
          Move.release b k n before _ nonneg (account_of_book t b old current found has) refl
            (omega int_laws) (pending_of_book t k n prefix was) sets marks
