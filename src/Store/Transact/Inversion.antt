-- ===== src/Store/Transact/Inversion.antt =====
-- What it takes for a transaction to pass, read back from its plan, write by write.
use mathlib.Core.Option
use pay_ledger.Prelude.{
  String, ◌≡◌, refl, Option, none, some, List, [], ◌∷◌, true, arith, inl, inr, Option-cases,
  Bool-cases, ap, ◌∙◌, eq_iff, some_inj, subst,
}
use pay_ledger.Prelude.Int.{ℤ, ◌+ℤ◌, ◌-ℤ◌, ◌≤ℤ◌, eqb_ℤ-eq, leb_ℤ-le}
use pay_ledger.Store.Item.{Value, str, num, null, Item, assign, as_number}
use pay_ledger.Store.Key.{Key}
use pay_ledger.Store.Table.{Table, lookup}
use pay_ledger.Store.Transact.{
  WriteItem, put, update, Condition, at_least, both, equals, constant, plus, minus, holds,
  value_eqb, verdict_on, verdict, Verdict, pass, condition_failed, invalid, plan, write_key,
  item_key, or_new,
}

-- A statement about the rows of a plan, from each write's verdict.
abbrev pub Each : List WriteItem → Table → (List (Key × Item) → Type 0) → Type 0
Each [] t P = P []
Each (w ∷ ws) t P =
    (v : Item) → verdict w t ≡ pass v → Each ws t (λ rest. P ((write_key w, v) ∷ rest))

abbrev rows_of : WriteItem → Verdict → Option (List (Key × Item)) → Option (List (Key × Item))
rows_of w v rest = elim v [
  | pass item ↦ Option.map (λ rows. (write_key w, item) ∷ rows) rest
  | condition_failed ↦ none
  | invalid ↦ none
]

pub plan-Each :
    (ws : List WriteItem) (t : Table) (P : List (Key × Item) → Type 0) (rows : List (Key × Item))
    → plan ws t ≡ some rows
    → Each ws t P
    → P rows
unfolding plan
plan-Each [] t P rows h e = subst P (some_inj h) e
plan-Each (w ∷ ws) t P rows h e =
    go (verdict w t) (plan ws t) (ground arith) e
      (λ rest v x. plan-Each ws t (λ more. P ((write_key w, x) ∷ more)) rest v)
  where
    go :
        (v : Verdict) (p : Option (List (Key × Item)))
        → rows_of w v p ≡ some rows
        → ((x : Item) → v ≡ pass x → Each ws t (λ rest. P ((write_key w, x) ∷ rest)))
        → ((rest : List (Key × Item))
            → p ≡ some rest
            → (x : Item) → Each ws t (λ more. P ((write_key w, x) ∷ more))
            → P ((write_key w, x) ∷ rest))
        → P rows
    go (pass x) (some rest) e each ih = subst P (some_inj e) (ih rest refl x (each x refl))
    go (pass x) none e each ih = cc
    go condition_failed p e each ih = cc
    go invalid p e each ih = cc

pub as_number-some : (v : Option Value) {n : ℤ} → as_number v ≡ some n → v ≡ some (num n)
as_number-some (some (num m)) h = cc
as_number-some (some (str s)) h = cc
as_number-some _ h = cc

pub value_eqb-eq : (v w : Value) → value_eqb v w ≡ true → v ≡ w
value_eqb-eq (str s) (str t) h = ap str ((eq_iff s t).0 h)
value_eqb-eq (num m) (num n) h = ap num (eqb_ℤ-eq m n h)
value_eqb-eq null null h = refl
value_eqb-eq (str s) (num n) h = cc
value_eqb-eq (str s) null h = cc
value_eqb-eq (num m) (str t) h = cc
value_eqb-eq (num m) null h = cc
value_eqb-eq null (str t) h = cc
value_eqb-eq null (num n) h = cc

-- A comparison that holds names an attribute of an item that is there.
pub equals-holds :
    (name : String) (v : Value) (o : Option Item)
    → holds (equals name v) o ≡ true
    → (old : Item) × (o ≡ some old) × (old name ≡ some v)
unfolding holds
equals-holds name v none h = cc
equals-holds name v (some old) h = elim (Option-cases (old name)) [
  | inl absent ↦ absurd (ground arith)
  | inr (w, e) ↦ (old, refl, e ∙ ap some (value_eqb-eq w v (ground arith)))
]

-- What a guarded update of one number has read and written.
abbrev Moved : (Option Item) → Item → String → (ℤ → ℤ) → Condition → Type 0
Moved o new name f c =
    (old : Item) × (m : ℤ) × (o ≡ some old)
    × (old name ≡ some (num m))
    × (holds c (some old) ≡ true)
    × (new ≡ assign name (num (f m)) old)

plus_on :
    (k : Key) (name : String) (n : ℤ) (c : Condition) (o : Option Item) {new : Item}
    → verdict_on (update k ((name, plus name n) ∷ []) c) o ≡ pass new
    → Moved o new name (λ m. m +ℤ n) c
unfolding verdict_on
plus_on k name n c none h = absurd (ground arith)
plus_on k name n c (some old) h = elim (Option-cases (as_number (old name))) [
  | inl absent ↦ absurd (ground arith)
  | inr (m, e) ↦ (old, m, refl, as_number-some (old name) e, ground arith, ground arith)
]

minus_on :
    (k : Key) (name : String) (n : ℤ) (c : Condition) (o : Option Item) {new : Item}
    → verdict_on (update k ((name, minus name n) ∷ []) c) o ≡ pass new
    → Moved o new name (λ m. m -ℤ n) c
unfolding verdict_on
minus_on k name n c none h = absurd (ground arith)
minus_on k name n c (some old) h = elim (Option-cases (as_number (old name))) [
  | inl absent ↦ absurd (ground arith)
  | inr (m, e) ↦ (old, m, refl, as_number-some (old name) e, ground arith, ground arith)
]

module _ (k : Key) (name : String) (n : ℤ) (c : Condition) (t : Table) {new : Item} where
  pub plus-pass :
      verdict (update k ((name, plus name n) ∷ []) c) t ≡ pass new
      → Moved (lookup k t) new name (λ m. m +ℤ n) c
  unfolding verdict
  plus-pass h = plus_on k name n c (lookup k t) h

  pub minus-pass :
      verdict (update k ((name, minus name n) ∷ []) c) t ≡ pass new
      → Moved (lookup k t) new name (λ m. m -ℤ n) c
  unfolding verdict
  minus-pass h = minus_on k name n c (lookup k t) h

-- Two attributes set to constants, under a condition.
constants_on :
    (k : Key) (c : Condition) (n₁ : String) (v₁ : Value) (n₂ : String) (v₂ : Value)
    (o : Option Item) {new : Item}
    → verdict_on (update k ((n₁, constant v₁) ∷ (n₂, constant v₂) ∷ []) c) o ≡ pass new
    → (holds c o ≡ true) × (new ≡ assign n₂ v₂ (assign n₁ v₁ (or_new k o)))
unfolding verdict_on
constants_on k c n₁ v₁ n₂ v₂ none h = (ground arith, ground arith)
constants_on k c n₁ v₁ n₂ v₂ (some old) h = (ground arith, ground arith)

pub constants-pass :
    (k : Key) (c : Condition) (n₁ : String) (v₁ : Value) (n₂ : String) (v₂ : Value) (t : Table)
    {new : Item}
    → verdict (update k ((n₁, constant v₁) ∷ (n₂, constant v₂) ∷ []) c) t ≡ pass new
    → (holds c (lookup k t) ≡ true) × (new ≡ assign n₂ v₂ (assign n₁ v₁ (or_new k (lookup k t))))
unfolding verdict
constants-pass k c n₁ v₁ n₂ v₂ t h = constants_on k c n₁ v₁ n₂ v₂ (lookup k t) h

pub put-pass :
    (item : Item) (c : Condition) (t : Table) {new : Item}
    → verdict (put item c) t ≡ pass new
    → (holds c (lookup (item_key item) t) ≡ true) × (new ≡ item)
unfolding verdict verdict_on
put-pass item c t h = elim (Bool-cases (holds c (lookup (item_key item) t))) [
  | inl e ↦ (e, ground arith)
  | inr e ↦ absurd (ground arith)
]

pub at_least-holds :
    (name : String) (n m : ℤ) (old : Item)
    → old name ≡ some (num m)
    → holds (at_least name n) (some old) ≡ true
    → n ≤ℤ m
unfolding holds
at_least-holds name n m old e h = leb_ℤ-le n m (ground arith)

pub both-holds :
    (c d : Condition) (o : Option Item)
    → holds (both c d) o ≡ true
    → (holds c o ≡ true) × (holds d o ≡ true)
unfolding holds
both-holds c d o h = ground arith

pub num_inj : {m n : ℤ} → some (num m) ≡ some (num n) → m ≡ n
num_inj h = cc
