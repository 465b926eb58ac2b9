-- ===== src/Program/Service.antt =====
-- The services behind a handler's calls, as a parameter: an abstract state, and an answer to each
-- request. `table` is what a strongly consistent read sees; `past` are the contents that a replica
-- or an index may still show.
use pay_ledger.Prelude.{
  ℕ, String, ◌≡◌, ◌≢◌, ◌⊎◌, Option, none, some, List, [], ◌∷◌, Bool, true, false, get_elem?,
}
use pay_ledger.Store.Item.{str, Item}
use pay_ledger.Store.Key.{
  Key, ledger_gsi1_pk_name, ledger_gsi1_sort_key_name, ledger_expired_hold_pk_name,
}
use pay_ledger.Store.Table.{Table, lookup, insert}
use pay_ledger.Store.Transact.{
  WriteItem, Condition, Code, Outcome, committed, cancelled, conditional_check_failed, holds, plan,
  reasons, insert_all, item_key,
}
use pay_ledger.Program.{
  Request, get_item, put_item, transact_write_items, query_gsi1, scan_expired, Answer, Reply, reply,
  lost, Fault, PutOutcome, stored, check_failed, Page, Prog, pure, raise, call, Exception,
}

pub record DynamoDb : Type 1 where
  pub State : Type 0
  pub table : State → Table
  pub past : State → Table → Type 0
  pub answer : (r : Request) → State → Answer r × State

pub data Result (A : Type 0) : Type 0 where
  returned : A → Result A
  raised : Exception → Result A

-- One handler, alone.
module _ (d : DynamoDb) where
  open d use {State, answer}

  abbrev pub run : {A : Type 0} → Prog A → State → Result A × State
  run (pure a) s = (returned a, s)
  run (raise e) s = (raised e, s)
  run (call r k) s = let (x, s') = answer r s in run (k x) s'

-- What DynamoDB documents of a transaction: from `t` it goes to `u` and answers `x`. All of the
-- items are written, or none; a failed condition is reported at the position of its item; a
-- cancellation for another reason (contention, throttling) reports no failed condition; and a
-- reply that is lost leaves open whether the transaction was done.
pub data TransactServed (ws : List WriteItem) (t u : Table) (x : Reply Outcome) : Type 0 where
  done :
      (rows : List (Key × Item))
      → plan ws t ≡ some rows
      → u ≡ insert_all rows t
      → x ≡ reply committed
      → TransactServed ws t u x
  refused :
      plan ws t ≡ none → u ≡ t → x ≡ reply (cancelled (reasons ws t)) → TransactServed ws t u x
  disturbed :
      (codes : List Code)
      → ((i : ℕ) → get_elem? codes i ≢ some conditional_check_failed)
      → u ≡ t
      → x ≡ reply (cancelled codes)
      → TransactServed ws t u x
  lost_before : (f : Fault) → u ≡ t → x ≡ lost f → TransactServed ws t u x
  lost_after :
      (f : Fault) (rows : List (Key × Item))
      → plan ws t ≡ some rows
      → u ≡ insert_all rows t
      → x ≡ lost f
      → TransactServed ws t u x

-- The same of a conditional `PutItem`.
pub data PutServed (item : Item) (c : Condition) (t u : Table) (x : Reply PutOutcome) : Type 0 where
  done :
      holds c (lookup (item_key item) t) ≡ true
      → u ≡ insert (item_key item) item t
      → x ≡ reply stored
      → PutServed item c t u x
  refused :
      holds c (lookup (item_key item) t) ≡ false
      → u ≡ t
      → x ≡ reply check_failed
      → PutServed item c t u x
  lost_before : (f : Fault) → u ≡ t → x ≡ lost f → PutServed item c t u x
  lost_after :
      (f : Fault)
      → holds c (lookup (item_key item) t) ≡ true
      → u ≡ insert (item_key item) item t
      → x ≡ lost f
      → PutServed item c t u x

abbrev pub All {ℓ} : {A : Type ℓ} → (A → Type 0) → List A → Type 0
All P [] = Unit
All P (x ∷ xs) = P x × All P xs

-- The requests that write nothing.
abbrev pub IsRead : Request → Type 0
IsRead (put_item item c) = ⊥
IsRead (transact_write_items ws) = ⊥
IsRead r = Unit

module _ (d : DynamoDb) where
  open d use {State, table, past, answer}

  -- The item is an item of some contents that the table has had.
  pub record IsImage (s : State) (item : Item) : Type 0 where
    pub contents : Table
    pub key : Key
    pub was : past s contents
    pub at : lookup key contents ≡ some item

  -- An item that an index shows is, or was, an item of the table; a query of GSI1 shows those with
  -- the keys asked for, and the index of expiry dates those with a date. A read sees contents that the
  -- table has had, and a strongly consistent one those that it has.
  pub record Documented : Type 0 where
    pub transact_served :
        (ws : List WriteItem) (s : State)
        → let (x, s') = answer (transact_write_items ws) s in
          TransactServed ws (table s) (table s') x
    pub put_served :
        (item : Item) (c : Condition) (s : State)
        → let (x, s') = answer (put_item item c) s in PutServed item c (table s) (table s') x
    pub get_served :
        (k : Key) (consistent : Bool) (s : State) (found : Option Item)
        → (answer (get_item k consistent) s).0 ≡ reply found
        → (t : Table) × past s t × (consistent ≡ true → t ≡ table s) × (found ≡ lookup k t)
    pub query_served :
        (pk sk : String) (s : State) (items : List Item)
        → (answer (query_gsi1 pk sk) s).0 ≡ reply items
        → All
            (λ item.
              IsImage s item
              × (item ledger_gsi1_pk_name ≡ some (str pk))
              × (item ledger_gsi1_sort_key_name ≡ some (str sk)))
            items
    pub scan_served :
        (status date : String) (start : Option Key) (s : State) (page : Page)
        → (answer (scan_expired status date start) s).0 ≡ reply page
        → All
            (λ item.
              IsImage s item
              × (item ledger_expired_hold_pk_name ≢ none)
              × (item "status" ≡ some (str status)))
            page.items
    pub read_keeps : (r : Request) (s : State) → IsRead r → table (answer r s).1 ≡ table s
    pub past_grows :
        (r : Request) (s : State) (t : Table)
        → past (answer r s).1 t
        → past s t ⊎ (t ≡ table (answer r s).1)
