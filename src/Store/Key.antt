-- ===== src/Store/Key.antt =====
-- shared/table.py: the names of the key attributes, and the keys that the repositories build.
mod Prefix
unfoldable pub use Prefix.{has_prefix, initial}
use Prefix.{initial_of_prefix, initial-append, has_prefix-append, has_prefix-initial}
use Prim.Native.String.{◌++◌}
use text.Mathlib.TextLemmas.{append_cancel_left}
use pay_ledger.Prelude
use pay_ledger.Prelude.{
  ℕ, String, ◌≡◌, refl, ◌≢◌, ◌↔◌, Bool, true, false, ◌&&◌, ◌||◌, ◌==◌, eq_iff, ap, arith, List,
  Bool-cases, inl, inr,
}

abbrev pub ledger_pk_name : String
ledger_pk_name = "PK"

abbrev pub ledger_sort_key_name : String
ledger_sort_key_name = "SK"

abbrev pub ledger_gsi1_pk_name : String
ledger_gsi1_pk_name = "GSI1-PK"

abbrev pub ledger_gsi1_sort_key_name : String
ledger_gsi1_sort_key_name = "GSI1-SK"

abbrev pub ledger_expired_hold_pk_name : String
ledger_expired_hold_pk_name = "expires_at"

-- The primary key of an item.
pub record Key : Type 0 where
  pub pk : String
  pub sk : String

-- `f"ACCT#{account_id}"`
unfoldable pub account_pk : String → String
account_pk account_id = "ACCT#" ++ account_id

-- `f"MERCHANT#{merchant_id}"`
unfoldable pub merchant_pk : String → String
merchant_pk merchant_id = "MERCHANT#" ++ merchant_id

-- `f"IDEM#{key}"`
unfoldable pub idempotency_pk : String → String
idempotency_pk key = "IDEM#" ++ key

-- `f"AUTH#{authorization_id}"`, the partition key of the index GSI1.
unfoldable pub authorization_gsi1_pk : String → String
authorization_gsi1_pk authorization_id = "AUTH#" ++ authorization_id

-- `authorization_sort_key`, at the text of `created_at`.
unfoldable pub authorization_sort_key : String → String → String
authorization_sort_key created_at authorization_id =
    "AUTH#" ++ (created_at ++ ("#" ++ authorization_id))

-- `f"TXN#{now_str}#{transaction_id}#0"`, with the number of the entry as text.
unfoldable pub entry_sort_key : String → String → String → String
entry_sort_key now transaction_id n = "TXN#" ++ (now ++ ("#" ++ (transaction_id ++ ("#" ++ n))))

-- `f"TXN#{transaction_id}#0"`
unfoldable pub entry_gsi1_pk : String → String → String
entry_gsi1_pk transaction_id n = "TXN#" ++ (transaction_id ++ ("#" ++ n))

abbrev pub meta : String
meta = "META"

abbrev pub funding_pk : String
funding_pk = "EXTERNAL#funding"

-- The texts of an f-string, put together.
abbrev pub concat : List String → String
concat Prelude.[] = ""
concat (Prelude.◌∷◌ s rest) = s ++ concat rest

unfoldable pub key_eqb : Key → Key → Bool
key_eqb k j = k.pk == j.pk && k.sk == j.sk

pub key_eqb_iff : (k j : Key) → (key_eqb k j ≡ true) ↔ (k ≡ j)
unfolding key_eqb
key_eqb_iff k j = ground (arith, eq_iff k.pk j.pk, eq_iff k.sk j.sk)

pub key_eqb_self : (k : Key) → key_eqb k k ≡ true
key_eqb_self k = (key_eqb_iff k k).1 refl

-- The families of keys differ in their first letters.
module _ (a : String) where
  pub initial-account_pk : initial (account_pk a) ≡ b'A'
  unfolding account_pk
  initial-account_pk = initial-append "A" "CCT#" a

  pub initial-merchant_pk : initial (merchant_pk a) ≡ b'M'
  unfolding merchant_pk
  initial-merchant_pk = initial-append "M" "ERCHANT#" a

  pub initial-idempotency_pk : initial (idempotency_pk a) ≡ b'I'
  unfolding idempotency_pk
  initial-idempotency_pk = initial-append "I" "DEM#" a

  pub has_prefix-idempotency_pk : has_prefix "IDEM#" (idempotency_pk a) ≡ true
  unfolding idempotency_pk
  has_prefix-idempotency_pk = has_prefix-append "IDEM#" a

  pub has_prefix-authorization_sort_key :
      (at : String) → has_prefix "AUTH#" (authorization_sort_key at a) ≡ true
  unfolding authorization_sort_key
  has_prefix-authorization_sort_key at = has_prefix-append "AUTH#" (at ++ ("#" ++ a))

  pub has_prefix-entry_sort_key :
      (now n : String) → has_prefix "AUTH#" (entry_sort_key now a n) ≡ false
  unfolding entry_sort_key
  has_prefix-entry_sort_key now n =
      has_prefix-initial "A" "UTH#" _
        (rw (initial-append "T" "XN#" (now ++ ("#" ++ (a ++ ("#" ++ n))))) refl)

pub initial-funding_pk : initial funding_pk ≡ b'E'
unfolding initial
initial-funding_pk = refl

pub has_prefix-meta : has_prefix "AUTH#" meta ≡ false
unfolding has_prefix
has_prefix-meta = refl

-- An account's key names one account.
pub account_pk_injective : (a b : String) → account_pk a ≡ account_pk b → a ≡ b
unfolding account_pk
account_pk_injective a b = append_cancel_left "ACCT#" a b

pub idempotency_pk_injective : (a b : String) → idempotency_pk a ≡ idempotency_pk b → a ≡ b
unfolding idempotency_pk
idempotency_pk_injective a b = append_cancel_left "IDEM#" a b

-- Partition keys that begin with different letters are different, and so are their keys.
pub key_eqb-initial : (k j : Key) → initial k.pk ≢ initial j.pk → key_eqb k j ≡ false
key_eqb-initial k j h = elim (Bool-cases (key_eqb k j)) [
  | inl same ↦ absurd (h (ap (λ (x : Key). initial x.pk) ((key_eqb_iff k j).0 same)))
  | inr other ↦ other
]

key_eqb-sk : (k j : Key) (f : String → Bool) → f k.sk ≡ true → f j.sk ≡ false → key_eqb k j ≡ false
key_eqb-sk k j f hk hj = elim (Bool-cases (key_eqb k j)) [
  | inl same ↦ cc (ap (λ (x : Key). f x.sk) ((key_eqb_iff k j).0 same), hk, hj)
  | inr other ↦ other
]

-- A row of the table is an authorization, a posted entry, or neither, by its sort key; and a record
-- that is written once is an entry or an idempotency record.
abbrev pub is_hold : Key → Bool
is_hold k = has_prefix "AUTH#" k.sk

abbrev pub is_record : Key → Bool
is_record k = has_prefix "TXN#" k.sk || has_prefix "IDEM#" k.pk

pub key_eqb-is_hold : (k j : Key) → is_hold k ≡ false → is_hold j ≡ true → key_eqb j k ≡ false
key_eqb-is_hold k j hk hj = key_eqb-sk j k (has_prefix "AUTH#") hj hk

pub key_eqb-hold_right : (k j : Key) → is_hold k ≡ false → is_hold j ≡ true → key_eqb k j ≡ false
key_eqb-hold_right k j hk hj = elim (Bool-cases (key_eqb k j)) [
  | inl same ↦ cc (ap (λ (x : Key). is_hold x) ((key_eqb_iff k j).0 same), hk, hj)
  | inr other ↦ other
]

pub key_eqb-pk : (k j : Key) → (k.pk == j.pk) ≡ false → key_eqb k j ≡ false
unfolding key_eqb
key_eqb-pk k j h = rw h refl

pub has_prefix-txn_auth : (s : String) → has_prefix "AUTH#" s ≡ true → has_prefix "TXN#" s ≡ false
has_prefix-txn_auth s h =
    has_prefix-initial "T" "XN#" s (ground (arith, initial_of_prefix "A" "UTH#" s h))

pub has_prefix-txn_meta : has_prefix "TXN#" meta ≡ false
unfolding has_prefix
has_prefix-txn_meta = refl

module _ (a : String) where
  pub has_prefix-idem_account_pk : has_prefix "IDEM#" (account_pk a) ≡ false
  has_prefix-idem_account_pk =
      has_prefix-initial "I" "DEM#" (account_pk a) (rw initial-account_pk refl)

  pub has_prefix-idem_merchant_pk : has_prefix "IDEM#" (merchant_pk a) ≡ false
  has_prefix-idem_merchant_pk =
      has_prefix-initial "I" "DEM#" (merchant_pk a) (rw initial-merchant_pk refl)

  pub has_prefix-txn_entry : (now n : String) → has_prefix "TXN#" (entry_sort_key now a n) ≡ true
  unfolding entry_sort_key
  has_prefix-txn_entry now n = has_prefix-append "TXN#" (now ++ ("#" ++ (a ++ ("#" ++ n))))

  -- An entry is in nobody's balance: its sort key is not that of an account.
  pub key_eqb-entry :
      (pk now n other : String)
      → key_eqb (record { pk = pk; sk = entry_sort_key now a n }) (record { pk = other; sk = meta })
        ≡ false
  unfolding entry_sort_key
  key_eqb-entry pk now n other =
      key_eqb-sk _ _ (has_prefix "TXN#")
        (has_prefix-append "TXN#" (now ++ ("#" ++ (a ++ ("#" ++ n))))) has_prefix-txn_meta

pub initial-entry_gsi1_sk :
    (n : String) → initial (concat (Prelude.◌∷◌ "ENTRY#" (Prelude.◌∷◌ n Prelude.[]))) ≡ b'E'
initial-entry_gsi1_sk n = initial-append "E" "NTRY#" (n ++ "")

pub initial-meta : initial meta ≡ b'M'
unfolding initial
initial-meta = refl
