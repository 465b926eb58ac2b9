-- ===== src/Books/Transactions/Effects.antt =====
-- What the transactions of a hold do to the rows that they touch: the amounts that move.
use pay_ledger.Prelude.{ℕ, String, ◌≡◌, refl, ◌∙◌, none, some, List, [], ◌∷◌, true, false, arith}
use pay_ledger.Prelude.Int.{ℤ, ◌+ℤ◌, ◌-ℤ◌}
use pay_ledger.Store.Item.{str, num, Item, assign}
use pay_ledger.Store.Key.{
  Key, key_eqb, key_eqb_self, key_eqb-is_hold, key_eqb-hold_right, key_eqb-entry, key_eqb-initial,
  account_pk, merchant_pk, initial-merchant_pk, initial-idempotency_pk, has_prefix-meta, is_hold,
}
use pay_ledger.Store.Table.{Table, lookup, insert, lookup-insert}
use pay_ledger.Store.Transact.{plan, insert_all, always}
use pay_ledger.Store.Transact.Inversion.{plan-Each, plus-pass, minus-pass}
use pay_ledger.Domain.{Authorization, AuthorizationStatus, captured, voided, status_value, Response}
use pay_ledger.Runtime.{Runtime}
use pay_ledger.Idempotency.{record_write, idempotency_item_key}
use pay_ledger.Ledger.Accounts.{account_key}
use pay_ledger.Ledger.Merchants.{merchant_key}
use pay_ledger.Ledger.Authorizations.{hold_key}
use pay_ledger.Ledger.Authorizations.Items.{capture_items, void_items}
use pay_ledger.Books.Writes.{
  entry_key, IsAside-merchant, IsAside-idempotency, IsAside-entry, close-pass,
}

-- The number `name` of the row goes from some `n` to `f n`, and nothing else of the row changes.
abbrev pub Moves : Key → String → (ℤ → ℤ) → Table → Table → Type 0
Moves k name f t u =
    (old : Item) × (n : ℤ) × (lookup k t ≡ some old)
    × (old name ≡ some (num n))
    × (lookup k u ≡ some (assign name (num (f n)) old))

-- The authorization goes from PENDING to the status, at a time, and keeps everything else.
abbrev pub Closes : Key → AuthorizationStatus → String → Table → Table → Type 0
Closes k status now t u =
    (old : Item) × (lookup k t ≡ some old)
    × (old "status" ≡ some (str "PENDING"))
    × (lookup k u
        ≡ some (assign "updated_at" (str now) (assign "status" (str (status_value status)) old)))

-- None of the rows has the key.
abbrev pub AllApart : Key → List (Key × Item) → Type 0
AllApart j [] = Unit
AllApart j ((k, v) ∷ rows) = (key_eqb k j ≡ false) × AllApart j rows

lookup-apart :
    (j : Key) (rows : List (Key × Item)) (t : Table)
    → AllApart j rows
    → lookup j (insert_all rows t) ≡ lookup j t
unfolding insert_all
lookup-apart j [] t h = refl
lookup-apart j ((k, v) ∷ rows) t h =
    lookup-apart j rows (insert k v t) h.1 ∙ lookup-insert k j v t ∙ rw h.0 refl

pub lookup-written :
    (k : Key) (v : Item) (rows : List (Key × Item)) (t : Table)
    → AllApart k rows
    → lookup k (insert_all ((k, v) ∷ rows) t) ≡ some v
unfolding insert_all
lookup-written k v rows t h =
    lookup-apart k rows (insert k v t) h ∙ lookup-insert k k v t ∙ rw (key_eqb_self k) refl

module _ (b : String) (k : Key) (hold : is_hold k ≡ true) where
  apart_account : key_eqb k (account_key b) ≡ false
  apart_account = key_eqb-is_hold (account_key b) k has_prefix-meta hold

  apart_merchant : key_eqb k (merchant_key b) ≡ false
  apart_merchant = key_eqb-is_hold (merchant_key b) k has_prefix-meta hold

  apart_idempotency : key_eqb (idempotency_item_key b) k ≡ false
  apart_idempotency = key_eqb-hold_right (idempotency_item_key b) k has_prefix-meta hold

idempotency_merchant :
    (key m : String) → key_eqb (idempotency_item_key key) (merchant_key m) ≡ false
idempotency_merchant key m =
    key_eqb-initial (idempotency_item_key key) (merchant_key m)
      (omega (arith, initial-idempotency_pk key, initial-merchant_pk m))

module _ (rt : Runtime) (t : Table) (a : Authorization) (b : String)
    (prefix : is_hold (hold_key b a.sort_key) ≡ true) (now key : String) (response : Response)
    (at : ℕ) where
  -- A capture that is committed takes the amount from the account's current balance, gives it to the
  -- merchant's payable balance, and turns the authorization from PENDING to CAPTURED, where its
  -- sort key is that of an authorization.
  pub capture_items-Moves :
      (id : String) (rows : List (Key × Item))
      → plan (capture_items a b now id (record_write rt key none response at)) t ≡ some rows
      → Moves (account_key b) "current_balance" (λ n. n -ℤ a.amount) t (insert_all rows t)
        × Moves
            (merchant_key a.merchant_id)
            "payable_balance"
            (λ n. n +ℤ a.amount)
            t
            (insert_all rows t)
        × Closes (hold_key b a.sort_key) captured now t (insert_all rows t)
  unfolding insert_all
  capture_items-Moves id rows h =
      plan-Each (capture_items a b now id (record_write rt key none response at)) t
        (λ rs.
          Moves (account_key b) "current_balance" (λ n. n -ℤ a.amount) t (insert_all rs t)
          × Moves (merchant_key a.merchant_id) "payable_balance" (λ n. n +ℤ a.amount) t
              (insert_all rs t)
          × Closes (hold_key b a.sort_key) captured now t (insert_all rs t))
        rows h
        λ v p w q e0 p0 e1 p1 c pc r pr.
          let m = a.merchant_id in
          let (old, n, found, read, guard, written) =
            minus-pass (account_key b) "current_balance" a.amount always t p in
          let (mold, mn, mfound, mread, mguard, mwritten) =
            plus-pass (merchant_key m) "payable_balance" a.amount always t q in
          let (hold, hfound, was, hwritten) =
            close-pass t (hold_key b a.sort_key) captured now pc in
          let hk = hold_key b a.sort_key in
          let last : List (Key × Item) = (idempotency_item_key key, r) ∷ [] in
          let entries : List (Key × Item) =
            (entry_key (account_pk b) now id "0", e0)
            ∷ (entry_key (merchant_pk m) now id "1", e1)
            ∷ (hk, c)
            ∷ last in
          (
            (
              old,
              n,
              found,
              read,
              lookup-written (account_key b) v ((merchant_key m, w) ∷ entries) t (
                (IsAside-merchant m).no_account b,
                (
                  (IsAside-entry (account_pk b) now id "0").no_account b,
                  (
                    (IsAside-entry (merchant_pk m) now id "1").no_account b,
                    (apart_account b hk prefix, ((IsAside-idempotency key).no_account b, tt)),
                  ),
                ),
              )
                  ∙ rw written refl,
            ),
            (
              mold,
              mn,
              mfound,
              mread,
              lookup-written (merchant_key m) w entries (insert (account_key b) v t) (
                key_eqb-entry id (account_pk b) now "0" (merchant_pk m),
                (
                  key_eqb-entry id (merchant_pk m) now "1" (merchant_pk m),
                  (apart_merchant m hk prefix, (idempotency_merchant key m, tt)),
                ),
              )
                  ∙ rw mwritten refl,
            ),
            (
              hold,
              hfound,
              was,
              lookup-written hk c last _ (apart_idempotency key hk prefix, tt) ∙ rw hwritten refl,
            ),
          )

  -- A void that is committed gives the amount back to the available balance, and turns the
  -- authorization from PENDING to VOIDED, where its sort key is that of an authorization.
  pub void_items-Moves :
      (rows : List (Key × Item))
      → plan (void_items a b now (record_write rt key none response at)) t ≡ some rows
      → Moves (account_key b) "available_balance" (λ n. n +ℤ a.amount) t (insert_all rows t)
        × Closes (hold_key b a.sort_key) voided now t (insert_all rows t)
  unfolding insert_all
  void_items-Moves rows h =
      plan-Each (void_items a b now (record_write rt key none response at)) t
        (λ rs.
          Moves (account_key b) "available_balance" (λ n. n +ℤ a.amount) t (insert_all rs t)
          × Closes (hold_key b a.sort_key) voided now t (insert_all rs t))
        rows h
        λ v p c pc r pr.
          let hk = hold_key b a.sort_key in
          let last : List (Key × Item) = (idempotency_item_key key, r) ∷ [] in
          let (old, n, found, read, guard, written) =
            plus-pass (account_key b) "available_balance" a.amount always t p in
          let (hold, hfound, was, hwritten) = close-pass t hk voided now pc in
          (
            (
              old,
              n,
              found,
              read,
              lookup-written (account_key b) v ((hk, c) ∷ last) t
                    (apart_account b hk prefix, ((IsAside-idempotency key).no_account b, tt))
                  ∙ rw written refl,
            ),
            (
              hold,
              hfound,
              was,
              lookup-written hk c last _ (apart_idempotency key hk prefix, tt) ∙ rw hwritten refl,
            ),
          )
