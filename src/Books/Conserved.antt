-- ===== src/Books/Conserved.antt =====
-- What no transaction changes: the money, and the balance of the debits and the credits.
pub mod Transfers
pub mod Entries
use pay_ledger.Prelude.{◌≡◌, refl, ◌∙◌}
use pay_ledger.Store.Table.{Table}
use pay_ledger.Books.Money.{worth}
use pay_ledger.Books.Postings.{postings}

pub record Conserves (t u : Table) : Type 0 where
  pub money_kept : worth u ≡ worth t
  pub postings_kept : postings u ≡ postings t

pub Conserves-refl : (t : Table) → Conserves t t
Conserves-refl t = record { money_kept = refl; postings_kept = refl }

pub Conserves-trans : {t u v : Table} → Conserves t u → Conserves u v → Conserves t v
Conserves-trans c d = record {
  money_kept = d.money_kept ∙ c.money_kept;
  postings_kept = d.postings_kept ∙ c.postings_kept;
}
