-- ===== src/System/Safe.antt =====
-- Programs whose every write keeps the books, whatever they are answered and whatever others do
-- to the table meanwhile.
use pay_ledger.Prelude.{
  String, ◌≡◌, refl, ◌∙◌, Option, none, some, List, Bool, true, false, if◌then◌else◌,
}
use pay_ledger.Prelude.Int.{ℤ}
use pay_ledger.Store.Item.{str, num, Item}
use pay_ledger.Store.Key.{Key, ledger_sort_key_name, meta}
use pay_ledger.Store.Table.{Table, lookup, insert}
use pay_ledger.Store.Transact.{holds, plan, insert_all, item_key}
use pay_ledger.Program.{
  Request, put_item, transact_write_items, query_gsi1, scan_expired, Answer, reply, Page, Prog,
  pure, raise, call, ◌>>=◌, catch, or_raise, Exception,
}
use pay_ledger.Program.Service.{All}
use pay_ledger.Books.View.{IsSound, Evolves, IsPlaced}
use pay_ledger.Books.Change.{Evolves-refl, Evolves-trans}
use pay_ledger.Books.Writes.{IsFresh}
use pay_ledger.Books.Advance.{Advances}

-- What an item of an index says of the table: the authorization is placed, with this amount.
pub record IsShadow (item : Item) (t : Table) : Type 0 where
  pub account_id : String
  pub sort_key : String
  pub amount : ℤ
  pub owner : item "account_id" ≡ some (str account_id)
  pub at : item ledger_sort_key_name ≡ some (str sort_key)
  pub holds_back : item "amount" ≡ some (num amount)
  pub placed : IsPlaced account_id sort_key amount t

-- What an answer tells of the table.
abbrev pub Tells : (r : Request) → Table → Answer r → Type 0
Tells (query_gsi1 pk sk) t x =
    sk ≡ meta → (items : List Item) → x ≡ reply items → All (λ item. IsShadow item t) items
Tells (scan_expired status date start) t x =
    (page : Page) → x ≡ reply page → All (λ item. IsShadow item t) page.items
Tells r t x = Unit

-- The unconditional puts of the request do not hit an item that is there.
abbrev pub NoCollision : Request → Table → Type 0
NoCollision (transact_write_items ws) t = IsFresh ws t
NoCollision r t = Unit

-- What the request writes, if it writes, keeps the books.
abbrev pub IsAllowed : Request → Table → Type 0
IsAllowed (transact_write_items ws) t =
    (rows : List (Key × Item))
    → plan ws t ≡ some rows
    → IsFresh ws t
    → Advances t (insert_all rows t)
IsAllowed (put_item item c) t =
    holds c (lookup (item_key item) t) ≡ true → Advances t (insert (item_key item) item t)
IsAllowed r t = Unit

-- From the table `t`, every request of the program is allowed in every sound table that `t` can
-- have become, and what it returns satisfies `Q`.
abbrev pub Safe : {A : Type 0} → (A → Table → Type 0) → Prog A → Table → Type 0
Safe Q (pure a) t = Q a t
Safe Q (raise e) t = Unit
Safe Q (call r k) t =
    ((u : Table) → Evolves t u → IsSound u → IsAllowed r u)
    × ((u : Table) (x : Answer r) → Evolves t u → Tells r u x → Safe Q (k x) u)

abbrev pub Anything : {A : Type 0} → A → Table → Type 0
Anything a t = Unit {0}

module _ {A B : Type 0} (Q : A → Table → Type 0) (R : B → Table → Type 0) where
  pub Safe-bind :
      (m : Prog A) (f : A → Prog B) (t : Table)
      → Safe Q m t
      → ((u : Table) (a : A) → Evolves t u → Q a u → Safe R (f a) u)
      → Safe R (m >>= f) t
  Safe-bind (pure a) f t s g = g t a (Evolves-refl t) s
  Safe-bind (raise e) f t s g = tt
  Safe-bind (call r k) f t s g = (
    s.0,
    λ u x ev told.
        Safe-bind (k x) f u (s.1 u x ev told) (λ v a ev' q. g v a (Evolves-trans ev ev') q),
  )

module _ {A : Type 0} (Q : A → Table → Type 0) where
  pub Safe-catch :
      (m : Prog A) (h : Exception → Prog A) (t : Table)
      → Safe Q m t
      → ((u : Table) (e : Exception) → Evolves t u → Safe Q (h e) u)
      → Safe Q (catch m h) t
  Safe-catch (pure a) h t s g = s
  Safe-catch (raise e) h t s g = g t e (Evolves-refl t)
  Safe-catch (call r k) h t s g = (
    s.0,
    λ u x ev told. Safe-catch (k x) h u (s.1 u x ev told) (λ v e ev'. g v e (Evolves-trans ev ev')),
  )

  -- A value that may be missing, and the rest of the block, which may use that it is not.
  pub Safe-or_raise :
      {B : Type 0} (o : Option B) (e : Exception) (f : B → Prog A) (t : Table)
      → ((b : B) → o ≡ some b → Safe Q (f b) t)
      → Safe Q (or_raise o e >>= f) t
  Safe-or_raise none e f t g = tt
  Safe-or_raise (some b) e f t g = g b refl

  pub Safe-if :
      (b : Bool) (m n : Prog A) (t : Table)
      → Safe Q m t
      → Safe Q n t
      → Safe Q (if b then m else n) t
  Safe-if true m n t sm sn = sm
  Safe-if false m n t sm sn = sn

  -- A request that writes nothing and tells nothing that is used.
  pub Safe-ask :
      (r : Request) (k : Answer r → Prog A) (t : Table)
      → ((u : Table) → IsAllowed r u)
      → ((u : Table) (x : Answer r) → Evolves t u → Safe Q (k x) u)
      → Safe Q (call r k) t
  Safe-ask r k t allowed g = (λ u ev s. allowed u, λ u x ev told. g u x ev)

-- A placed authorization stays placed.
pub IsPlaced-Evolves :
    {b sk : String} {n : ℤ} {t u : Table} → IsPlaced b sk n t → Evolves t u → IsPlaced b sk n u
IsPlaced-Evolves {b} {sk} {n} {t} {u} p ev =
    let (new, found, keeps) = ev.holds _ p.row p.prefix p.found in
    record {
      row = new;
      found = found;
      prefix = p.prefix;
      amount_kept = keeps.kept "amount" refl refl ∙ p.amount_kept;
      amount_nonneg = p.amount_nonneg;
    }

pub IsShadow-Evolves : {item : Item} {t u : Table} → IsShadow item t → Evolves t u → IsShadow item u
IsShadow-Evolves s ev = record {
  account_id = s.account_id;
  sort_key = s.sort_key;
  amount = s.amount;
  owner = s.owner;
  at = s.at;
  holds_back = s.holds_back;
  placed = IsPlaced-Evolves s.placed ev;
}
