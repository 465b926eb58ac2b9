-- ===== src/Ledger/Sweep/Count.antt =====
-- What the sweep reports: the count of the holds that it has released.
use pay_ledger.Prelude.{
  ℕ, ◌+◌, String, ◌≡◌, refl, ap, Option, none, some, List, [], ◌∷◌, Bool, true, false,
  if◌then◌else◌, arith,
}
use pay_ledger.Prelude.Int.{ℤ}
use pay_ledger.Store.Item.{Item, as_text, as_number}
use pay_ledger.Store.Key.{ledger_sort_key_name}
use pay_ledger.Store.Transact.{WriteItem, Outcome, committed, cancelled}
use pay_ledger.Program.{
  Request, transact_write_items, utc_now, Answer, Reply, reply, lost, Prog, pure, raise, call,
  ◌>>=◌, ◌>>◌, catch, received, or_cancel, or_raise, transact, Exception, transaction_canceled,
  key_error, fault_error,
}
use pay_ledger.Program.Service.{DynamoDb, returned, run}
use pay_ledger.Runtime.{Runtime}
use pay_ledger.Idempotency.{check_failed_at}
use pay_ledger.Ledger.Authorizations.Items.{expire_items}
use pay_ledger.Ledger.Sweep.{expire_canceled, expire_hold, expire_all, update_expired_holds}

-- A transaction that DynamoDB answers with success.
abbrev pub commits : (r : Request) → Answer r → ℕ
commits (transact_write_items ws) (reply committed) = 1
commits (transact_write_items ws) _ = 0
commits r x = 0

returned_inj : {A : Type 0} {a b : A} → returned a ≡ returned b → a ≡ b
returned_inj h = cc

module _ (d : DynamoDb) where
  -- The transactions of a run that are committed.
  abbrev pub committed_in : {A : Type 0} → Prog A → d.State → ℕ
  committed_in (pure a) s = 0
  committed_in (raise e) s = 0
  committed_in (call r k) s = let (x, s') = d.answer r s in commits r x + committed_in (k x) s'

  -- A run of a block that returns, in its two parts.
  record Parts {A B : Type 0} (m : Prog A) (f : A → Prog B) (s : d.State) (b : B) (end : d.State)
      : Type 0 where
    value : A
    between : d.State
    first : run d m s ≡ (returned value, between)
    ends : run d (f value) between ≡ (returned b, end)
    adds : committed_in (m >>= f) s ≡ committed_in m s + committed_in (f value) between

  parts :
      {A B : Type 0} (m : Prog A) (f : A → Prog B) (s : d.State) {b : B} {end : d.State}
      → run d (m >>= f) s ≡ (returned b, end)
      → Parts m f s b end
  parts (pure a) f s h = record {
    value = a;
    between = s;
    first = refl;
    ends = h;
    adds = omega arith;
  }
  parts (raise e) f s h = cc
  parts (call r k) f s h =
      let (x, s') = d.answer r s in
      let p = parts (k x) f s' h in
      record {
        value = p.value;
        between = p.between;
        first = p.first;
        ends = p.ends;
        adds = omega (arith, p.adds);
      }

  -- The value that the program returns is the number of its committed transactions.
  abbrev Counts : Prog ℕ → Type 0
  Counts m =
      (s : d.State) (n : ℕ) (end : d.State) → run d m s ≡ (returned n, end) → committed_in m s ≡ n

  counted :
      (c : ℕ) (s : d.State) (n : ℕ) (end : d.State) → run d (pure c) s ≡ (returned n, end) → c ≡ n
  counted c s n end h = returned_inj (ap (λ x. x.0) h)

  Counts-if : (b : Bool) (x y : Prog ℕ) → Counts x → Counts y → Counts (if b then x else y)
  Counts-if true x y cx cy = cx
  Counts-if false x y cx cy = cy

  Counts-or_raise :
      {A : Type 0} (o : Option A) (e : Exception) (f : A → Prog ℕ)
      → ((a : A) → Counts (f a))
      → Counts (or_raise o e >>= f)
  Counts-or_raise none e f g = λ s n end h. cc
  Counts-or_raise (some a) e f g = g a

  module _ (rt : Runtime) where
    canceled-Counts : (e : Exception) → Counts (expire_canceled rt e)
    unfolding expire_canceled
    canceled-Counts (transaction_canceled codes) =
        Counts-if (check_failed_at 1 codes) (pure 0) (raise (transaction_canceled codes))
          (counted 0) (λ s n end h. cc)
    canceled-Counts _ = λ s n end h. cc

    -- A transaction that is sent, with its answer.
    answer-counts :
        (ws : List WriteItem) (x : Reply Outcome) (s : d.State) (n : ℕ) (end : d.State)
        → run d (catch ((received x >>= or_cancel) >> pure 1) (expire_canceled rt)) s
          ≡ (returned n, end)
        → commits (transact_write_items ws) x
            + committed_in (catch ((received x >>= or_cancel) >> pure 1) (expire_canceled rt)) s
          ≡ n
    answer-counts ws (reply committed) s n end h = omega (arith, counted 1 s n end h)
    answer-counts ws (reply (cancelled codes)) s n end h =
        omega (arith, canceled-Counts (transaction_canceled codes) s n end h)
    answer-counts ws (lost f) s n end h = omega (arith, canceled-Counts (fault_error f) s n end h)

    attempt-Counts :
        (account_id now : String) (amount : Option ℤ) (sort_key : Option String)
        → Counts (
            catch
              (or_raise amount (key_error "amount") >>= λ m.
                or_raise sort_key (key_error ledger_sort_key_name) >>= λ k.
                transact (expire_items account_id m k now) >> pure 1)
              (expire_canceled rt))
    attempt-Counts account_id now none sort_key = canceled-Counts (key_error "amount")
    attempt-Counts account_id now (some m) none = canceled-Counts (key_error ledger_sort_key_name)
    attempt-Counts account_id now (some m) (some k) = λ s n end h.
        let ws = expire_items account_id m k now in
        let (x, s') = d.answer (transact_write_items ws) s in answer-counts ws x s' n end h

    expire_hold-Counts : (now : String) (hold : Item) → Counts (expire_hold rt now hold)
    unfolding expire_hold
    expire_hold-Counts now hold =
        Counts-or_raise (as_text (hold "account_id")) (key_error "account_id") _ λ account_id.
          attempt-Counts account_id now (as_number (hold "amount"))
            (as_text (hold ledger_sort_key_name))

    expire_all-counts :
        (now : String) (c : ℕ) (holds : List Item) (s : d.State) (n : ℕ) (end : d.State)
        → run d (expire_all rt now c holds) s ≡ (returned n, end)
        → c + committed_in (expire_all rt now c holds) s ≡ n
    unfolding expire_all
    expire_all-counts now c [] s n end h = omega (arith, counted c s n end h)
    expire_all-counts now c (hold ∷ rest) s n end h =
        let p = parts (expire_hold rt now hold) (λ m. expire_all rt now (c + m) rest) s h in
        let here = expire_hold-Counts now hold s p.value p.between p.first in
        let later = expire_all-counts now (c + p.value) rest p.between n end p.ends in
        omega (arith, p.adds, here, later)

    -- Where the sweep returns a count, it is the number of the transactions of its run that DynamoDB
    -- has committed.
    pub update_expired_holds-counts :
        (holds : List Item) (s : d.State) (n : ℕ) (end : d.State)
        → run d (update_expired_holds rt holds) s ≡ (returned n, end)
        → committed_in (update_expired_holds rt holds) s ≡ n
    unfolding update_expired_holds
    update_expired_holds-counts holds s n end h =
        let (now, s') = d.answer utc_now s in
        omega (arith, expire_all-counts (rt.isoformat now) 0 holds s' n end h)
