-- ===== src/Books/Held.antt =====
-- How a written row moves the sum of an account's holds.
use pay_ledger.Prelude.{String, ◌≡◌, refl, true, false, ◌==◌, none, some, arith, Option, eq_iff}
use pay_ledger.Prelude.Int.{ℤ, pos, ◌+ℤ◌, ◌-ℤ◌, int_laws, parts_of_eq}
use pay_ledger.Store.Item.{str, num, Item}
use pay_ledger.Store.Key.{Key, account_pk, is_hold}
use pay_ledger.Store.Table.{Table, lookup, insert, total-insert}
use pay_ledger.Books.View.{pending_amount, hold_weight, held}

weight-none : (a : String) (k : Key) → hold_weight a k none ≡ pos 0
unfolding hold_weight pending_amount
weight-none a k = ground arith

weight-aside :
    (a : String) (k : Key) (o : Option Item) → is_hold k ≡ false → hold_weight a k o ≡ pos 0
unfolding hold_weight
weight-aside a k o h = ground arith

weight-elsewhere :
    (a : String) (k : Key) (o : Option Item)
    → (k.pk == account_pk a) ≡ false
    → hold_weight a k o ≡ pos 0
unfolding hold_weight
weight-elsewhere a k o h = rw h refl

weight-own :
    (a : String) (k : Key) (o : Option Item)
    → k.pk ≡ account_pk a
    → is_hold k ≡ true
    → hold_weight a k o ≡ pending_amount o
unfolding hold_weight
weight-own a k o p h = ground (arith, eq_iff k.pk (account_pk a))

-- A row that is no authorization moves nothing.
pub held-insert_aside :
    (a : String) (k : Key) (v : Item) (t : Table)
    → is_hold k ≡ false
    → held a (insert k v t) ≡ held a t
unfolding held
held-insert_aside a k v t h = omega (
  int_laws,
  parts_of_eq (total-insert (hold_weight a) k v t (weight-none a k)),
  parts_of_eq (weight-aside a k (lookup k t) h),
  parts_of_eq (weight-aside a k (some v) h),
)

-- A new authorization, or one whose status changes, moves the sum by its pending amounts.
pub held-insert :
    (a : String) (k : Key) (v : Item) (t : Table)
    → k.pk ≡ account_pk a
    → is_hold k ≡ true
    → held a (insert k v t) ≡ held a t +ℤ pending_amount (some v) -ℤ pending_amount (lookup k t)
unfolding held
held-insert a k v t p h = omega (
  int_laws,
  parts_of_eq (total-insert (hold_weight a) k v t (weight-none a k)),
  parts_of_eq (weight_hold (lookup k t)),
  parts_of_eq (weight_hold (some v)),
)
  where
    weight_hold : (o : Option Item) → hold_weight a k o ≡ pending_amount o
    weight_hold o = weight-own a k o p h

-- Of another account's authorizations, nothing.
pub held-insert_elsewhere :
    (a : String) (k : Key) (v : Item) (t : Table)
    → (k.pk == account_pk a) ≡ false
    → held a (insert k v t) ≡ held a t
unfolding held
held-insert_elsewhere a k v t h = omega (
  int_laws,
  parts_of_eq (total-insert (hold_weight a) k v t (weight-none a k)),
  parts_of_eq (weight-elsewhere a k (lookup k t) h),
  parts_of_eq (weight-elsewhere a k (some v) h),
)

pub pending_amount-pending :
    (item : Item) (n : ℤ)
    → item "status" ≡ some (str "PENDING")
    → item "amount" ≡ some (num n)
    → pending_amount (some item) ≡ n
unfolding pending_amount
pending_amount-pending item n s e = rw (s, e) refl

pub pending_amount-none : pending_amount none ≡ pos 0
unfolding pending_amount
pending_amount-none = refl

pub pending_amount-closed :
    (item : Item) (s : String)
    → item "status" ≡ some (str s)
    → (s == "PENDING") ≡ false
    → pending_amount (some item) ≡ pos 0
unfolding pending_amount
pending_amount-closed item s e h = rw (e, h) refl
