-- ===== src/Books/Writes.antt =====
-- The single writes of the program's transactions: each makes a row that the table may be given.
use pay_ledger.Prelude.{
  String, ℕ, ◌≡◌, ◌≢◌, refl, subst, sym, ap, ◌∙◌, ◌==◌, true, false, Option, none, some, List, [],
  ◌∷◌, arith, inl, inr, Option-cases,
}
use pay_ledger.Store.Item.{Value, str, Item, assign, as_text}
use pay_ledger.Store.Key.{
  Key, account_pk, entry_sort_key, meta, concat, ledger_pk_name, ledger_gsi1_sort_key_name,
  ledger_expired_hold_pk_name, is_hold, key_eqb-initial, key_eqb-entry, has_prefix-meta,
  has_prefix-txn_meta, has_prefix-txn_auth, has_prefix-idem_account_pk, has_prefix-idem_merchant_pk,
  initial-entry_gsi1_sk, initial-meta, has_prefix-entry_sort_key, initial, initial-account_pk,
  initial-merchant_pk, initial-idempotency_pk,
}
use pay_ledger.Store.Table.{Table, lookup}
use pay_ledger.Store.Transact.{
  WriteItem, put, always, attribute_not_exists, holds, verdict, pass, item_key, equals, constant,
  update, or_new, or_empty,
}
use pay_ledger.Store.Transact.Inversion.{put-pass, constants-pass, equals-holds}
use pay_ledger.Domain.{AuthorizationStatus, pending, status_value, Response}
use pay_ledger.Ledger.Accounts.{account_key}
use pay_ledger.Ledger.Merchants.{merchant_key}
use pay_ledger.Runtime.{Runtime}
use pay_ledger.Utils.{RequestModel}
use pay_ledger.Idempotency.{idempotency_item_key, record_item, record_write}
use pay_ledger.Books.View.{IsIndexed, KeepsHold}
use pay_ledger.Books.Change.{
  Change, updated, created, HasSoundRows, KeepsIdentity, KeepsHold-KeepsIdentity,
}
use pay_ledger.Books.Settle.{IsAside}

-- The puts without a condition go to keys that the table does not have yet: fresh ids are fresh.
abbrev pub IsFresh : List WriteItem → Table → Type 0
IsFresh [] t = Unit
IsFresh (put item always ∷ ws) t = (lookup (item_key item) t ≡ none) × IsFresh ws t
IsFresh (w ∷ ws) t = IsFresh ws t

-- An entry is not in GSI1 as an authorization would be.
pub entry_not_meta : (n : String) → some (str (concat ("ENTRY#" ∷ n ∷ []))) ≢ some (str meta)
entry_not_meta n h = omega (
  arith,
  initial-entry_gsi1_sk n,
  initial-meta,
  ap (λ (v : Option Value). initial (or_empty (as_text v))) h,
)

pub IsAside-merchant : (m : String) → IsAside (merchant_key m)
IsAside-merchant m = record {
  no_hold = has_prefix-meta;
  no_account = λ a.
      key_eqb-initial (merchant_key m) (account_key a)
        (omega (arith, initial-merchant_pk m, initial-account_pk a));
}

pub IsAside-idempotency : (key : String) → IsAside (idempotency_item_key key)
IsAside-idempotency key = record {
  no_hold = has_prefix-meta;
  no_account = λ a.
      key_eqb-initial (idempotency_item_key key) (account_key a)
        (omega (arith, initial-idempotency_pk key, initial-account_pk a));
}

-- The key of an entry of the ledger.
abbrev pub entry_key : (pk now id n : String) → Key
entry_key pk now id n = record { pk = pk; sk = entry_sort_key now id n }

pub IsAside-entry : (pk now id n : String) → IsAside (entry_key pk now id n)
IsAside-entry pk now id n = record {
  no_hold = has_prefix-entry_sort_key id now n;
  no_account = λ a. key_eqb-entry id pk now n (account_pk a);
}

-- A balance that changes leaves the attributes by which its row is found.
KeepsIdentity-same :
    (old new : Item)
    → ((name : String)
        → ("available_balance" == name) ≡ false
        → ("current_balance" == name) ≡ false
        → ("payable_balance" == name) ≡ false
        → new name ≡ old name)
    → KeepsIdentity old new
KeepsIdentity-same old new h = record {
  pk = h "PK" refl refl refl;
  sk = h "SK" refl refl refl;
  gsi1_sk = h "GSI1-SK" refl refl refl;
  expires_at = h "expires_at" refl refl refl;
  account_id = h "account_id" refl refl refl;
  amount = h "amount" refl refl refl;
}

module _ (old : Item) (x : Value) where
  pub KeepsIdentity-available : KeepsIdentity old (assign "available_balance" x old)
  KeepsIdentity-available = KeepsIdentity-same old _ (λ name p q r. rw p refl)

  pub KeepsIdentity-current : KeepsIdentity old (assign "current_balance" x old)
  KeepsIdentity-current = KeepsIdentity-same old _ (λ name p q r. rw q refl)

  pub KeepsIdentity-payable : KeepsIdentity old (assign "payable_balance" x old)
  KeepsIdentity-payable = KeepsIdentity-same old _ (λ name p q r. rw r refl)

module _ (t : Table) where
  -- An account's row with another balance.
  pub Change-account :
      (b : String) (old v : Item)
      → lookup (account_key b) t ≡ some old
      → KeepsIdentity old v
      → Change t (account_key b) v
  Change-account b old v e same =
      updated old e (rw (has_prefix-txn_meta, has_prefix-idem_account_pk b) refl) same
        (λ h. cc (h, has_prefix-meta))

  pub Change-merchant :
      (m : String) (old v : Item)
      → lookup (merchant_key m) t ≡ some old
      → KeepsIdentity old v
      → Change t (merchant_key m) v
  Change-merchant m old v e same =
      updated old e (rw (has_prefix-txn_meta, has_prefix-idem_merchant_pk m) refl) same
        (λ h. cc (h, has_prefix-meta))

  -- A row that no index shows, where there was none.
  pub Change-new :
      (k : Key) (v : Item)
      → lookup k t ≡ none
      → v ledger_pk_name ≡ some (str k.pk)
      → v ledger_gsi1_sort_key_name ≢ some (str meta)
      → v ledger_expired_hold_pk_name ≡ none
      → Change t k v
  Change-new k v e p g x = created e p (λ i. absurd (unindexed i))
    where
      unindexed : ¬ (IsIndexed v)
      unindexed (inl s) = g s
      unindexed (inr n) = n x

  -- A row that is put without a condition, where there was none.
  pub Change-put :
      (item : Item) {new : Item}
      → verdict (put item always) t ≡ pass new
      → lookup (item_key item) t ≡ none
      → item ledger_pk_name ≡ some (str (item_key item).pk)
      → item ledger_gsi1_sort_key_name ≢ some (str meta)
      → item ledger_expired_hold_pk_name ≡ none
      → Change t (item_key item) new
  Change-put item v e p g x =
      subst (λ (i : Item). Change t (item_key item) i) (sym (put-pass item always t v).1)
        (Change-new (item_key item) item e p g x)

  -- `attribute_not_exists(PK)` holds where there is no item.
  pub absent :
      HasSoundRows t
      → (k : Key) → holds (attribute_not_exists ledger_pk_name) (lookup k t) ≡ true
      → lookup k t ≡ none
  unfolding holds
  absent sound k h = elim (Option-cases (lookup k t)) [
    | inl e ↦ e
    | inr (old, e) ↦ ground (arith, sound.keyed k old e)
  ]

  -- A hold that leaves PENDING: its row as it was, and the row that is written.
  pub close-pass :
      (hk : Key) (status : AuthorizationStatus) (now : String) {new : Item}
      → verdict
          (update hk
            (("status", constant (str (status_value status)))
              ∷ ("updated_at", constant (str now))
              ∷ [])
            (equals "status" (str (status_value pending))))
          t
        ≡ pass new
      → (old : Item) × (lookup hk t ≡ some old)
        × (old "status" ≡ some (str "PENDING"))
        × (new ≡ assign "updated_at" (str now) (assign "status" (str (status_value status)) old))
  close-pass hk status now v =
      let (h, e) =
        constants-pass hk (equals "status" (str "PENDING")) "status" (str (status_value status))
          "updated_at" (str now) t v in
      let (old, at, was) = equals-holds "status" (str "PENDING") (lookup hk t) h in
      (
        old,
        at,
        was,
        e
            ∙ ap
                (λ o.
                  assign "updated_at" (str now)
                    (assign "status" (str (status_value status)) (or_new hk o)))
                at,
      )

  pub KeepsHold-close :
      (old : Item) (status : AuthorizationStatus) (now : String)
      → old "status" ≡ some (str "PENDING")
      → KeepsHold old
          (assign "updated_at" (str now) (assign "status" (str (status_value status)) old))
  KeepsHold-close old status now e = record { kept = λ name p q. rw (q, p) refl; closed = inl e }

  pub Change-close :
      (hk : Key) (old : Item) (status : AuthorizationStatus) (now b : String)
      → hk.pk ≡ account_pk b
      → is_hold hk ≡ true
      → lookup hk t ≡ some old
      → old "status" ≡ some (str "PENDING")
      → Change t hk
          (assign "updated_at" (str now) (assign "status" (str (status_value status)) old))
  Change-close hk old status now b p h e was =
      let keeps = KeepsHold-close old status now was in
      updated old e (rw (has_prefix-txn_auth hk.sk h, p, has_prefix-idem_account_pk b) refl)
        (KeepsHold-KeepsIdentity keeps) (λ _. keeps)

  module _ (rt : Runtime) (sound : HasSoundRows t) where
    -- The idempotency record goes where there was none.
    pub Change-idempotency :
        (key : String) (request : Option RequestModel) (response : Response) (now : ℕ) {new : Item}
        → verdict (record_write rt key request response now) t ≡ pass new
        → Change t (idempotency_item_key key) new
    Change-idempotency key request response now {new} v =
        let (h, e) =
          put-pass (record_item rt key request response now) (attribute_not_exists ledger_pk_name) t
            v in
        subst (λ (x : Item). Change t (idempotency_item_key key) x) (sym e)
          (Change-new (idempotency_item_key key) (record_item rt key request response now)
            (absent sound (idempotency_item_key key) h) refl (λ p. cc) refl)
