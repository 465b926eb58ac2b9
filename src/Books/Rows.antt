-- ===== src/Books/Rows.antt =====
-- The written rows together: they leave the rows of the table sound, and the table evolves.
use pay_ledger.Prelude.{◌≡◌, sym, ◌∙◌, subst, true, some, some_inj, List, [], ◌∷◌}
use pay_ledger.Store.Item.{str, Item}
use pay_ledger.Store.Key.{Key, ledger_pk_name, is_hold, is_record}
use pay_ledger.Store.Table.{Table, lookup, insert}
use pay_ledger.Store.Transact.{insert_all}
use pay_ledger.Books.View.{IsHoldRow, IsIndexed, KeepsHold, Evolves}
use pay_ledger.Books.Change.{
  Change, updated, created, HasSoundRows, KeepsIdentity-IsHoldRow, KeepsIdentity-IsIndexed, Found,
  same, other, found,
}

abbrev pub AllChange : Table → List (Key × Item) → Type 0
AllChange t [] = Unit
AllChange t ((k, v) ∷ rows) = Change t k v × AllChange t rows

module _ (t : Table) where
  holds_at :
      (k : Key) (v old : Item)
      → Change t k v
      → is_hold k ≡ true
      → lookup k t ≡ some old
      → KeepsHold old v
  holds_at k v old (updated old' e r s kept) h e' =
      subst (λ x. KeepsHold x v) (some_inj (sym e ∙ e')) (kept h)
  holds_at k v old (created n p i) h e' = cc

  records_at :
      (k : Key) (v item : Item)
      → Change t k v
      → is_record k ≡ true
      → lookup k t ≡ some item
      → some v ≡ some item
  records_at k v item (updated old' e r s kept) h e' = cc
  records_at k v item (created n p i) h e' = cc

  pub Evolves-insert :
      (acc : Table) (k : Key) (v : Item) → Evolves t acc → Change t k v → Evolves t (insert k v acc)
  Evolves-insert acc k v ev c = record {
    holds = λ j old h e. holds_found j old h e (found k j v acc);
    records = λ j item h e. records_found j item h e (found k j v acc);
  }
    where
      holds_found :
          (j : Key) (old : Item)
          → is_hold j ≡ true
          → lookup j t ≡ some old
          → Found k j v acc
          → (new : Item) × (lookup j (insert k v acc) ≡ some new) × KeepsHold old new
      holds_found j old h e (same p f) =
          (v, f, holds_at j v old (subst (λ x. Change t x v) p c) h e)
      holds_found j old h e (other f) = let (new, e', s) = ev.holds j old h e in (new, f ∙ e', s)

      records_found :
          (j : Key) (item : Item)
          → is_record j ≡ true
          → lookup j t ≡ some item
          → Found k j v acc
          → lookup j (insert k v acc) ≡ some item
      records_found j item h e (same p f) =
          f ∙ records_at j v item (subst (λ x. Change t x v) p c) h e
      records_found j item h e (other f) = f ∙ ev.records j item h e

  module _ (sound : HasSoundRows t) where
    indexed_at : (k : Key) (v : Item) → Change t k v → IsIndexed v → IsHoldRow k v
    indexed_at k v (updated old e r s kept) i =
        KeepsIdentity-IsHoldRow k old v s
          (sound.indexed k old e (KeepsIdentity-IsIndexed old v s i))
    indexed_at k v (created n p h) i = h i

    keyed_at : (k : Key) (v : Item) → Change t k v → v ledger_pk_name ≡ some (str k.pk)
    keyed_at k v (updated old e r s kept) = s.pk ∙ sound.keyed k old e
    keyed_at k v (created n p h) = p

    HasSoundRows-insert :
        (acc : Table) (k : Key) (v : Item)
        → HasSoundRows acc
        → Change t k v
        → HasSoundRows (insert k v acc)
    HasSoundRows-insert acc k v rows c = record {
      indexed = λ j item e i. indexed_found j item e i (found k j v acc);
      keyed = λ j item e. keyed_found j item e (found k j v acc);
    }
      where
        indexed_found :
            (j : Key) (item : Item)
            → lookup j (insert k v acc) ≡ some item
            → IsIndexed item
            → Found k j v acc
            → IsHoldRow j item
        indexed_found j item e i (same p f) =
            subst (λ x. IsIndexed x → IsHoldRow j x) (some_inj (sym f ∙ e))
              (indexed_at j v (subst (λ x. Change t x v) p c)) i
        indexed_found j item e i (other f) = rows.indexed j item (sym f ∙ e) i

        keyed_found :
            (j : Key) (item : Item)
            → lookup j (insert k v acc) ≡ some item
            → Found k j v acc
            → item ledger_pk_name ≡ some (str j.pk)
        keyed_found j item e (same p f) =
            subst (λ (x : Item). x ledger_pk_name ≡ some (str j.pk)) (some_inj (sym f ∙ e))
              (keyed_at j v (subst (λ x. Change t x v) p c))
        keyed_found j item e (other f) = rows.keyed j item (sym f ∙ e)

    pub HasSoundRows-insert_all :
        (rows : List (Key × Item)) (acc : Table)
        → HasSoundRows acc
        → AllChange t rows
        → HasSoundRows (insert_all rows acc)
    unfolding insert_all
    HasSoundRows-insert_all [] acc h c = h
    HasSoundRows-insert_all ((k, v) ∷ rows) acc h c =
        HasSoundRows-insert_all rows (insert k v acc) (HasSoundRows-insert acc k v h c.0) c.1

  pub Evolves-insert_all :
      (rows : List (Key × Item)) (acc : Table)
      → Evolves t acc
      → AllChange t rows
      → Evolves t (insert_all rows acc)
  unfolding insert_all
  Evolves-insert_all [] acc h c = h
  Evolves-insert_all ((k, v) ∷ rows) acc h c =
      Evolves-insert_all rows (insert k v acc) (Evolves-insert acc k v h c.0) c.1
