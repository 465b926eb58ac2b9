-- ===== src/Store/Table.antt =====
-- The contents of the table: at most one item for a key.
use pay_ledger.Prelude.{
  ◌≡◌, refl, Option, none, some, List, [], ◌∷◌, arith, inl, inr, Bool-cases, if◌then◌else◌,
}
use pay_ledger.Prelude.Int.{ℤ, pos, ◌+ℤ◌, int_laws, parts_of_eq}
use pay_ledger.Store.Item.{Item}
use pay_ledger.Store.Key.{Key, key_eqb, key_eqb_iff}

abbrev pub Table : Type 0
Table = List (Key × Item)

unfoldable pub lookup : Key → Table → Option Item
lookup k [] = none
lookup k ((j, item) ∷ t) = if key_eqb j k then some item else lookup k t

unfoldable pub insert : Key → Item → Table → Table
insert k v [] = (k, v) ∷ []
insert k v ((j, w) ∷ t) = if key_eqb j k then (k, v) ∷ t else (j, w) ∷ insert k v t

pub lookup-insert :
    (k j : Key) (v : Item) (t : Table)
    → lookup j (insert k v t) ≡ (if key_eqb k j then some v else lookup j t)
unfolding lookup insert
lookup-insert k j v [] = refl
lookup-insert k j v ((i, w) ∷ t) =
    ground (arith, key_eqb_iff k j, key_eqb_iff i k, key_eqb_iff i j, lookup-insert k j v t)

-- A sum over the rows of the table, of a weight for each key and item.
module _ (weight : Key → Option Item → ℤ) where
  unfoldable pub total : Table → ℤ
  total [] = pos 0
  total ((k, item) ∷ t) = weight k (some item) +ℤ total t

  -- A write moves the sum by the difference of the weights of the new item and of the old.
  pub total-insert :
      (k : Key) (v : Item) (t : Table)
      → weight k none ≡ pos 0
      → total (insert k v t) +ℤ weight k (lookup k t) ≡ total t +ℤ weight k (some v)
  unfolding total insert lookup
  total-insert k v [] h = rw h (omega int_laws)
  total-insert k v ((j, w) ∷ t) h = elim (Bool-cases (key_eqb j k)) [
    | inl same ↦ rw same (rw ((key_eqb_iff j k).0 same) (omega int_laws))
    | inr other ↦ rw other (omega (int_laws, parts_of_eq (total-insert k v t h)))
  ]
