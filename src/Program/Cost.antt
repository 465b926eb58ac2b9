-- ===== src/Program/Cost.antt =====
-- What a program spends: a sum over the requests that it makes, whatever they are answered.
use pay_ledger.Prelude.{ℕ, ◌+◌, ◌≤◌, arith, Option, none, some}
use pay_ledger.Program.{
  Request, transact_write_items, put_item, sleep, Answer, Prog, pure, raise, call, ◌>>=◌, catch,
  or_raise, Exception,
}
use pay_ledger.Program.Service.{DynamoDb}

-- In milliseconds.
abbrev pub waited : Request → ℕ
waited (sleep ms) = ms
waited r = 0

abbrev pub puts : Request → ℕ
puts (put_item item c) = 1
puts r = 0

abbrev pub transactions : Request → ℕ
transactions (transact_write_items ws) = 1
transactions r = 0

module _ (cost : Request → ℕ) where
  -- What a run spends.
  abbrev pub spent : (d : DynamoDb) {A : Type 0} → Prog A → d.State → ℕ
  spent d (pure a) s = 0
  spent d (raise e) s = 0
  spent d (call r k) s = let (x, s') = d.answer r s in cost r + spent d (k x) s'

  -- The program spends at most n, whatever it is answered.
  abbrev pub Within : {A : Type 0} → ℕ → Prog A → Type 0
  Within n (pure a) = Unit
  Within n (raise e) = Unit
  Within n (call r k) = (left : ℕ) × (cost r + left ≤ n) × ((x : Answer r) → Within left (k x))

  pub spent-Within :
      (d : DynamoDb) {A : Type 0} (n : ℕ) (m : Prog A) (s : d.State) → Within n m → spent d m s ≤ n
  spent-Within d n (pure a) s w = omega arith
  spent-Within d n (raise e) s w = omega arith
  spent-Within d n (call r k) s w =
      let (left, fits, rest) = w in
      let (x, s') = d.answer r s in omega (arith, fits, spent-Within d left (k x) s' (rest x))

  pub Within-le : {A : Type 0} (a b : ℕ) (m : Prog A) → a ≤ b → Within a m → Within b m
  Within-le a b (pure x) h w = tt
  Within-le a b (raise e) h w = tt
  Within-le a b (call r k) h w = (w.0, omega (arith, h, w.1), w.2)

  pub Within-bind :
      {A B : Type 0} (a b : ℕ) (m : Prog A) (f : A → Prog B)
      → Within a m
      → ((x : A) → Within b (f x))
      → Within (a + b) (m >>= f)
  Within-bind a b (pure x) f w g = Within-le b (a + b) (f x) (omega arith) (g x)
  Within-bind a b (raise e) f w g = tt
  Within-bind a b (call r k) f w g =
      (w.0 + b, omega (arith, w.1), λ x. Within-bind w.0 b (k x) f (w.2 x) g)

  pub Within-catch :
      {A : Type 0} (a b : ℕ) (m : Prog A) (h : Exception → Prog A)
      → Within a m
      → ((e : Exception) → Within b (h e))
      → Within (a + b) (catch m h)
  Within-catch a b (pure x) h w g = tt
  Within-catch a b (raise e) h w g = Within-le b (a + b) (h e) (omega arith) (g e)
  Within-catch a b (call r k) h w g =
      (w.0 + b, omega (arith, w.1), λ x. Within-catch w.0 b (k x) h (w.2 x) g)

  -- A value that may be missing.
  pub Within-or_raise :
      {A B : Type 0} (n : ℕ) (o : Option A) (e : Exception) (f : A → Prog B)
      → ((a : A) → Within n (f a))
      → Within n (or_raise o e >>= f)
  Within-or_raise n none e f g = tt
  Within-or_raise n (some a) e f g = g a
