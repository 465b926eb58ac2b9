-- ===== src/System/Serve.antt =====
-- One request served: what the documented laws of DynamoDB make of a table that is in order.
use pay_ledger.Prelude.{◌≡◌, refl, sym, ◌∙◌, inl, inr, some, List, [], ◌∷◌, subst}
use pay_ledger.Store.Item.{Item}
use pay_ledger.Store.Key.{Key}
use pay_ledger.Store.Table.{Table, lookup}
use pay_ledger.Store.Transact.{WriteItem}
use pay_ledger.Program.{
  Request, get_item, put_item, transact_write_items, query_gsi1, scan_expired, utc_now, today,
  epoch_seconds, uuid4_hex, sleep, Reply,
}
use pay_ledger.Program.Service
use pay_ledger.Program.Service.{
  DynamoDb, Documented, IsImage, All, TransactServed, PutServed, IsRead,
}
use pay_ledger.Books.View.{IsSound, Evolves, IsHoldRow, IsIndexed}
use pay_ledger.Books.Change.{Evolves-refl, Evolves-trans}
use pay_ledger.Books.Advance.{Advances, Advances-refl}
use pay_ledger.System.Safe.{IsShadow, IsShadow-Evolves, Tells, NoCollision, IsAllowed}

All-map :
    {A : Type 0} {P Q : A → Type 0} → ((x : A) → P x → Q x) → (xs : List A) → All P xs → All Q xs
All-map f [] h = tt
All-map f (x ∷ xs) h = (f x h.0, All-map f xs h.1)

IsHoldRow-IsShadow :
    (k : Key) (item : Item) (t : Table)
    → lookup k t ≡ some item
    → IsHoldRow k item
    → IsShadow item t
IsHoldRow-IsShadow k item t found h = record {
  account_id = h.account_id;
  sort_key = k.sk;
  amount = h.amount;
  owner = h.owner;
  at = h.sort_key;
  holds_back = h.amount_kept;
  placed = record {
    row = item;
    found = rw (← h.partition) found;
    prefix = h.prefix;
    amount_kept = h.amount_kept;
    amount_nonneg = h.amount_nonneg;
  };
}

module _ (d : DynamoDb) where
  open d use {State, table, past, answer}

  -- The table is in order, and so was every earlier content that a replica or an index may show.
  pub record InOrder (s : State) : Type 0 where
    pub sound : IsSound (table s)
    pub history : (t : Table) → past s t → IsSound t × Evolves t (table s)

  module _ (laws : Documented d) (s : State) (order : InOrder s) where
    transact-Advances :
        (ws : List WriteItem) (u : Table) (x : Reply _)
        → TransactServed ws (table s) u x
        → IsAllowed (transact_write_items ws) (table s)
        → NoCollision (transact_write_items ws) (table s)
        → Advances (table s) u
    transact-Advances ws u x (Service.TransactServed.done rows p e a) allowed fresh =
        subst (Advances (table s)) (sym e) (allowed rows p fresh)
    transact-Advances ws u x (Service.TransactServed.refused p e a) allowed fresh =
        subst (Advances (table s)) (sym e) (Advances-refl order.sound)
    transact-Advances ws u x (Service.TransactServed.disturbed c n e a) allowed fresh =
        subst (Advances (table s)) (sym e) (Advances-refl order.sound)
    transact-Advances ws u x (Service.TransactServed.lost_before f e a) allowed fresh =
        subst (Advances (table s)) (sym e) (Advances-refl order.sound)
    transact-Advances ws u x (Service.TransactServed.lost_after f rows p e a) allowed fresh =
        subst (Advances (table s)) (sym e) (allowed rows p fresh)

    put-Advances :
        (item : Item) (c : _) (u : Table) (x : Reply _)
        → PutServed item c (table s) u x
        → IsAllowed (put_item item c) (table s)
        → Advances (table s) u
    put-Advances item c u x (Service.PutServed.done h e a) allowed =
        subst (Advances (table s)) (sym e) (allowed h)
    put-Advances item c u x (Service.PutServed.refused h e a) allowed =
        subst (Advances (table s)) (sym e) (Advances-refl order.sound)
    put-Advances item c u x (Service.PutServed.lost_before f e a) allowed =
        subst (Advances (table s)) (sym e) (Advances-refl order.sound)
    put-Advances item c u x (Service.PutServed.lost_after f h e a) allowed =
        subst (Advances (table s)) (sym e) (allowed h)

    read-Advances : (r : Request) → IsRead r → Advances (table s) (table (answer r s).1)
    read-Advances r h =
        subst (Advances (table s)) (sym (laws.read_keeps r s h)) (Advances-refl order.sound)

    pub serve-Advances :
        (r : Request)
        → IsAllowed r (table s)
        → NoCollision r (table s)
        → Advances (table s) (table (answer r s).1)
    serve-Advances (transact_write_items ws) allowed fresh =
        transact-Advances ws _ _ (laws.transact_served ws s) allowed fresh
    serve-Advances (put_item item c) allowed fresh =
        put-Advances item c _ _ (laws.put_served item c s) allowed
    serve-Advances (get_item k c) allowed fresh = read-Advances (get_item k c) tt
    serve-Advances (query_gsi1 pk sk) allowed fresh = read-Advances (query_gsi1 pk sk) tt
    serve-Advances (scan_expired w x k) allowed fresh = read-Advances (scan_expired w x k) tt
    serve-Advances utc_now allowed fresh = read-Advances utc_now tt
    serve-Advances today allowed fresh = read-Advances today tt
    serve-Advances epoch_seconds allowed fresh = read-Advances epoch_seconds tt
    serve-Advances uuid4_hex allowed fresh = read-Advances uuid4_hex tt
    serve-Advances (sleep ms) allowed fresh = read-Advances (sleep ms) tt

    -- An item of an index is that of an authorization.
    shadow : (item : Item) → IsImage d s item → IsIndexed item → IsShadow item (table s)
    shadow item image h =
        let (before, ev) = order.history image.contents image.was in
        IsShadow-Evolves
          (IsHoldRow-IsShadow image.key item image.contents image.at
            (before.indexed image.key item image.at h))
          ev

    pub serve-Tells : (r : Request) → Tells r (table (answer r s).1) (answer r s).0
    serve-Tells (query_gsi1 pk sk) = λ e items h. rw (laws.read_keeps (query_gsi1 pk sk) s tt) (
        All-map (λ item p. shadow item p.0 (inl (p.2 ∙ rw e refl))) items
          (laws.query_served pk sk s items h))
    serve-Tells (scan_expired w x k) = λ page h.
        rw (laws.read_keeps (scan_expired w x k) s tt) (
          All-map (λ item p. shadow item p.0 (inr p.1)) page.items
            (laws.scan_served w x k s page h))
    serve-Tells (transact_write_items ws) = tt
    serve-Tells (put_item item c) = tt
    serve-Tells (get_item k c) = tt
    serve-Tells utc_now = tt
    serve-Tells today = tt
    serve-Tells epoch_seconds = tt
    serve-Tells uuid4_hex = tt
    serve-Tells (sleep ms) = tt

    pub serve_order :
        (r : Request) → Advances (table s) (table (answer r s).1) → InOrder (answer r s).1
    serve_order r adv = record {
      sound = adv.sound;
      history = λ t was. elim (laws.past_grows r s t was) [
        | inl before ↦
            let (sound, ev) = order.history t before in (sound, Evolves-trans ev adv.evolves)
        | inr e ↦
            subst (λ u. IsSound u × Evolves u (table (answer r s).1)) (sym e)
              (adv.sound, Evolves-refl _)
      ];
    }
