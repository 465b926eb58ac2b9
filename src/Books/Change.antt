-- ===== src/Books/Change.antt =====
-- One written row at a time: what keeps the rows of a table in order.
use pay_ledger.Prelude.{◌≡◌, refl, sym, ◌∙◌, ◌⊎◌, inl, inr, true, false, none, some, Bool-cases}
use pay_ledger.Store.Item.{str, Item}
use pay_ledger.Store.Key.{
  Key, key_eqb, key_eqb_iff, ledger_pk_name, ledger_sort_key_name, ledger_gsi1_sort_key_name,
  ledger_expired_hold_pk_name, is_hold, is_record,
}
use pay_ledger.Store.Table.{Table, lookup, insert, lookup-insert}
use pay_ledger.Books.View.{IsHoldRow, IsIndexed, KeepsHold, Evolves}

-- The attributes by which a row is found and paid stay.
pub record KeepsIdentity (old new : Item) : Type 0 where
  pub pk : new ledger_pk_name ≡ old ledger_pk_name
  pub sk : new ledger_sort_key_name ≡ old ledger_sort_key_name
  pub gsi1_sk : new ledger_gsi1_sort_key_name ≡ old ledger_gsi1_sort_key_name
  pub expires_at : new ledger_expired_hold_pk_name ≡ old ledger_expired_hold_pk_name
  pub account_id : new "account_id" ≡ old "account_id"
  pub amount : new "amount" ≡ old "amount"

pub KeepsIdentity-IsHoldRow :
    (k : Key) (old new : Item) → KeepsIdentity old new → IsHoldRow k old → IsHoldRow k new
KeepsIdentity-IsHoldRow k old new s h = record {
  account_id = h.account_id;
  amount = h.amount;
  partition = h.partition;
  prefix = h.prefix;
  sort_key = s.sk ∙ h.sort_key;
  owner = s.account_id ∙ h.owner;
  amount_kept = s.amount ∙ h.amount_kept;
  amount_nonneg = h.amount_nonneg;
}

pub KeepsIdentity-IsIndexed :
    (old new : Item) → KeepsIdentity old new → IsIndexed new → IsIndexed old
KeepsIdentity-IsIndexed old new s (inl e) = inl (sym s.gsi1_sk ∙ e)
KeepsIdentity-IsIndexed old new s (inr n) = inr (λ e. n (s.expires_at ∙ e))

pub KeepsHold-KeepsIdentity : {old new : Item} → KeepsHold old new → KeepsIdentity old new
KeepsHold-KeepsIdentity h = record {
  pk = h.kept "PK" refl refl;
  sk = h.kept "SK" refl refl;
  gsi1_sk = h.kept "GSI1-SK" refl refl;
  expires_at = h.kept "expires_at" refl refl;
  account_id = h.kept "account_id" refl refl;
  amount = h.kept "amount" refl refl;
}

-- A row that the table may be given: an update of the row that is there, which no record has, or a
-- row where there was none.
pub data Change (t : Table) (k : Key) (v : Item) : Type 0 where
  updated :
      (old : Item)
      → lookup k t ≡ some old
      → is_record k ≡ false
      → KeepsIdentity old v
      → (is_hold k ≡ true → KeepsHold old v)
      → Change t k v
  created :
      lookup k t ≡ none
      → v ledger_pk_name ≡ some (str k.pk)
      → (IsIndexed v → IsHoldRow k v)
      → Change t k v

-- The part of soundness that is about single rows.
pub record HasSoundRows (t : Table) : Type 0 where
  pub indexed : (k : Key) (item : Item) → lookup k t ≡ some item → IsIndexed item → IsHoldRow k item
  pub keyed :
      (k : Key) (item : Item) → lookup k t ≡ some item → item ledger_pk_name ≡ some (str k.pk)

pub KeepsHold-refl : (item : Item) → KeepsHold item item
KeepsHold-refl item = record { kept = λ n p q. refl; closed = inr refl }

pub Evolves-refl : (t : Table) → Evolves t t
Evolves-refl t = record {
  holds = λ k old h e. (old, e, KeepsHold-refl old);
  records = λ k item h e. e;
}

KeepsHold-trans : {a b c : Item} → KeepsHold a b → KeepsHold b c → KeepsHold a c
KeepsHold-trans {a} {b} {c} f g = record {
  kept = λ n p q. g.kept n p q ∙ f.kept n p q;
  closed = join f.closed g.closed;
}
  where
    join :
        (a "status" ≡ some (str "PENDING")) ⊎ (b "status" ≡ a "status")
        → (b "status" ≡ some (str "PENDING")) ⊎ (c "status" ≡ b "status")
        → (a "status" ≡ some (str "PENDING")) ⊎ (c "status" ≡ a "status")
    join (inl p) d = inl p
    join (inr e) (inl p) = inl (sym e ∙ p)
    join (inr e) (inr d) = inr (d ∙ e)

pub Evolves-trans : {t u v : Table} → Evolves t u → Evolves u v → Evolves t v
Evolves-trans f g = record {
  holds = λ k old h e.
      let (new, e', s) = f.holds k old h e in
      let (last, e'', s') = g.holds k new h e' in (last, e'', KeepsHold-trans s s');
  records = λ k item h e. g.records k item h (f.records k item h e);
}

-- What a lookup finds after a write, by the key.
pub data Found (k j : Key) (v : Item) (t : Table) : Type 0 where
  same : k ≡ j → lookup j (insert k v t) ≡ some v → Found k j v t
  other : lookup j (insert k v t) ≡ lookup j t → Found k j v t

pub found : (k j : Key) (v : Item) (t : Table) → Found k j v t
found k j v t = elim (Bool-cases (key_eqb k j)) [
  | inl e ↦ same ((key_eqb_iff k j).0 e) (lookup-insert k j v t ∙ rw e refl)
  | inr e ↦ other (lookup-insert k j v t ∙ rw e refl)
]
