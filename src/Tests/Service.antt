-- ===== src/Tests/Service.antt =====
-- A service that keeps the documented laws: one table, read without delay, and a fixed clock.
use pay_ledger.Prelude.{
  String, ◌≡◌, ◌≢◌, refl, sym, ap, subst, Option, none, some, List, [], ◌∷◌, Bool, true, false,
  ◌&&◌, if◌then◌else◌, inl, inr, Bool-cases, arith,
}
use pay_ledger.Store.Item.{Value, str, Item}
use pay_ledger.Store.Key.{
  Key, ledger_gsi1_pk_name, ledger_gsi1_sort_key_name, ledger_expired_hold_pk_name,
}
use pay_ledger.Store.Table.{Table, lookup, insert}
use pay_ledger.Store.Transact.{
  WriteItem, Condition, Outcome, committed, cancelled, holds, plan, reasons, insert_all, item_key,
  value_eqb,
}
use pay_ledger.Store.Transact.Inversion.{value_eqb-eq}
use pay_ledger.Program.{
  Request, get_item, put_item, transact_write_items, query_gsi1, scan_expired, utc_now, today,
  epoch_seconds, uuid4_hex, sleep, Answer, Reply, reply, PutOutcome, stored, check_failed, Page,
}
use pay_ledger.Program.Service
use pay_ledger.Program.Service.{
  DynamoDb, Documented, IsImage, All, TransactServed, PutServed, IsRead,
}

abbrev is_value : Value → Option Value → Bool
is_value v none = false
is_value v (some w) = value_eqb w v

abbrev is_there : Option Value → Bool
is_there none = false
is_there (some v) = true

abbrev is_in_gsi1 : String → String → Item → Bool
is_in_gsi1 pk sk item =
    is_value (str pk) (item ledger_gsi1_pk_name)
    && is_value (str sk) (item ledger_gsi1_sort_key_name)

abbrev is_with_date : String → Item → Bool
is_with_date status item =
    is_there (item ledger_expired_hold_pk_name) && is_value (str status) (item "status")

abbrev keep : (Item → Bool) → Option Item → List Item → List Item
keep f none rest = rest
keep f (some item) rest = if f item then item ∷ rest else rest

-- The items of the table `t` that pass a test, at the keys of some rows.
unfoldable pub select : (Item → Bool) → Table → List (Key × Item) → List Item
select f t [] = []
select f t ((k, v) ∷ rows) = keep f (lookup k t) (select f t rows)

abbrev answer_plan : List WriteItem → Table → Option (List (Key × Item)) → Reply Outcome × Table
answer_plan ws t (some rows) = (reply committed, insert_all rows t)
answer_plan ws t none = (reply (cancelled (reasons ws t)), t)

abbrev answer_put : Item → Table → Bool → Reply PutOutcome × Table
answer_put item t true = (reply stored, insert (item_key item) item t)
answer_put item t false = (reply check_failed, t)

abbrev pub respond : (r : Request) → Table → Answer r × Table
respond (get_item k consistent) t = (reply (lookup k t), t)
respond (put_item item c) t = answer_put item t (holds c (lookup (item_key item) t))
respond (transact_write_items ws) t = answer_plan ws t (plan ws t)
respond (query_gsi1 pk sk) t = (reply (select (is_in_gsi1 pk sk) t t), t)
respond (scan_expired status date start) t =
    (reply (record { items = select (is_with_date status) t t; last_evaluated_key = none }), t)
respond utc_now t = (9, t)
respond today t = (0, t)
respond epoch_seconds t = (9, t)
respond uuid4_hex t = ("2", t)
respond (sleep ms) t = (tt, t)

abbrev pub service : DynamoDb
service = record { State = Table; table = λ t. t; past = λ t u. u ≡ t; answer = respond }

transact_lem :
    (ws : List WriteItem) (t : Table) (o : Option (List (Key × Item)))
    → plan ws t ≡ o
    → TransactServed ws t (answer_plan ws t o).1 (answer_plan ws t o).0
transact_lem ws t (some rows) e = Service.TransactServed.done rows e refl refl
transact_lem ws t none e = Service.TransactServed.refused e refl refl

put_lem :
    (item : Item) (c : Condition) (t : Table) (b : Bool)
    → holds c (lookup (item_key item) t) ≡ b
    → PutServed item c t (answer_put item t b).1 (answer_put item t b).0
put_lem item c t true e = Service.PutServed.done e refl refl
put_lem item c t false e = Service.PutServed.refused e refl refl

is_value-eq : (v : Value) (o : Option Value) → is_value v o ≡ true → o ≡ some v
is_value-eq v none h = cc
is_value-eq v (some w) h = ap some (value_eqb-eq w v h)

is_there-some : (o : Option Value) → is_there o ≡ true → o ≢ none
is_there-some none h = cc
is_there-some (some v) h = λ e. cc

reply_inj : {A : Type 0} {a b : A} → reply a ≡ reply b → a ≡ b
reply_inj h = cc

module _ (t : Table) (f : Item → Bool) where
  keep-All :
      {P : Item → Type 0} (k : Key) (o : Option Item) (rest : List Item)
      → lookup k t ≡ o
      → ((item : Item) → IsImage service t item → f item ≡ true → P item)
      → All P rest
      → All P (keep f o rest)
  keep-All k none rest e g h = h
  keep-All k (some item) rest e g h = elim (Bool-cases (f item)) [
    | inl kept ↦ rw kept (g item (record { contents = t; key = k; was = refl; at = e }) kept, h)
    | inr dropped ↦ rw dropped h
  ]

  select-All :
      {P : Item → Type 0} (rows : List (Key × Item))
      → ((item : Item) → IsImage service t item → f item ≡ true → P item)
      → All P (select f t rows)
  unfolding select
  select-All [] g = tt
  select-All ((k, v) ∷ rows) g =
      keep-All k (lookup k t) (select f t rows) refl g (select-All rows g)

both_true : (a b : Bool) → (a && b) ≡ true → (a ≡ true) × (b ≡ true)
both_true a b h = ground arith

pub service-Documented : Documented service
service-Documented = record {
  transact_served = λ ws t. transact_lem ws t (plan ws t) refl;
  put_served = λ item c t. put_lem item c t (holds c (lookup (item_key item) t)) refl;
  get_served = λ k consistent t found h. (t, refl, λ e. refl, sym (reply_inj h));
  query_served = λ pk sk t items h.
      subst
        (All (λ item.
          IsImage service t item
          × (item ledger_gsi1_pk_name ≡ some (str pk))
          × (item ledger_gsi1_sort_key_name ≡ some (str sk))))
        (reply_inj h)
        (select-All t (is_in_gsi1 pk sk) t (λ item image e.
          let (p, q) = both_true _ _ e in (image, is_value-eq _ _ p, is_value-eq _ _ q)));
  scan_served = λ status date start t page h.
      subst
        (λ (p : Page).
          All
            (λ item.
              IsImage service t item
              × (item ledger_expired_hold_pk_name ≢ none)
              × (item "status" ≡ some (str status)))
            p.items)
        (reply_inj h)
        (select-All t (is_with_date status) t (λ item image e.
          let (p, q) = both_true _ _ e in (image, is_there-some _ p, is_value-eq _ _ q)));
  read_keeps = kept;
  past_grows = λ r t u h. inr h;
}
  where
    kept : (r : Request) (t : Table) → IsRead r → (respond r t).1 ≡ t
    kept (get_item k consistent) t h = refl
    kept (put_item item c) t h = absurd h
    kept (transact_write_items ws) t h = absurd h
    kept (query_gsi1 pk sk) t h = refl
    kept (scan_expired status date start) t h = refl
    kept utc_now t h = refl
    kept today t h = refl
    kept epoch_seconds t h = refl
    kept uuid4_hex t h = refl
    kept (sleep ms) t h = refl
