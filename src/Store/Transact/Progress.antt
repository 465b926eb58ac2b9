-- ===== src/Store/Transact/Progress.antt =====
-- When the writes of a transaction pass.
use pay_ledger.Prelude.{String, ◌≡◌, refl, sym, subst, true, some, List, [], ◌∷◌}
use pay_ledger.Prelude.Int.{ℤ, ◌+ℤ◌, ◌-ℤ◌}
use pay_ledger.Store.Item.{Value, num, Item, assign}
use pay_ledger.Store.Key.{Key}
use pay_ledger.Store.Table.{Table, lookup}
use pay_ledger.Store.Transact.{
  WriteItem, put, update, Condition, constant, plus, minus, holds, assign_all, verdict, verdict_on,
  pass, plan, write_key, item_key,
}

abbrev pub Passes : List WriteItem → Table → Type 0
Passes ws t = (rows : List (Key × Item)) × (plan ws t ≡ some rows)

module _ (t : Table) where
  pub Passes-nil : Passes [] t
  unfolding plan
  Passes-nil = ([], refl)

  pub Passes-cons :
      (w : WriteItem) (ws : List WriteItem) (v : Item)
      → verdict w t ≡ pass v
      → Passes ws t
      → Passes (w ∷ ws) t
  unfolding plan
  Passes-cons w ws v h (rows, p) = ((write_key w, v) ∷ rows, rw (plan, h, p) refl)

  pub put-passes :
      (item : Item) (c : Condition)
      → holds c (lookup (item_key item) t) ≡ true
      → verdict (put item c) t ≡ pass item
  unfolding verdict verdict_on
  put-passes item c h = rw h refl

  module _ (k : Key) (old : Item) (found : lookup k t ≡ some old) (c : Condition)
      (allowed : holds c (some old) ≡ true) where
    pub plus-passes :
        (name : String) (m n : ℤ)
        → old name ≡ some (num m)
        → verdict (update k ((name, plus name n) ∷ []) c) t ≡ pass (assign name (num (m +ℤ n)) old)
    unfolding verdict verdict_on assign_all
    plus-passes name m n read =
        subst
          (λ o.
            verdict_on (update k ((name, plus name n) ∷ []) c) o
            ≡ pass (assign name (num (m +ℤ n)) old))
          (sym found) (rw (allowed, assign_all, read) refl)

    pub minus-passes :
        (name : String) (m n : ℤ)
        → old name ≡ some (num m)
        → verdict (update k ((name, minus name n) ∷ []) c) t ≡ pass (assign name (num (m -ℤ n)) old)
    unfolding verdict verdict_on assign_all
    minus-passes name m n read =
        subst
          (λ o.
            verdict_on (update k ((name, minus name n) ∷ []) c) o
            ≡ pass (assign name (num (m -ℤ n)) old))
          (sym found) (rw (allowed, assign_all, read) refl)

    pub constants-passes :
        (name other : String) (v w : Value)
        → verdict (update k ((name, constant v) ∷ (other, constant w) ∷ []) c) t
          ≡ pass (assign other w (assign name v old))
    unfolding verdict verdict_on assign_all
    constants-passes name other v w = rw (found, allowed) refl
