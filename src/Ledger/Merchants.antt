-- ===== src/Ledger/Merchants.antt =====
-- `MerchantRepository` of shared/ledger.py.
use pay_ledger.Prelude.{ℕ, String, Option, none, some, [], ◌∷◌, false}
use pay_ledger.Prelude.Int.{pos}
use pay_ledger.Store.Item.{str, num, Item, attributes}
use pay_ledger.Store.Key.{Key, ledger_pk_name, ledger_sort_key_name, merchant_pk, meta}
use pay_ledger.Store.Transact.{attribute_not_exists}
use pay_ledger.Domain.{Merchant}
use pay_ledger.Program.{
  Prog, pure, raise, call, ◌>>=◌, get, put_item, PutOutcome, stored, check_failed, received, clock,
  text_field, number_field, Exception, merchant_already_exists,
}
use pay_ledger.Runtime.{Runtime}

abbrev pub merchant_key : String → Key
merchant_key merchant_id = record { pk = merchant_pk merchant_id; sk = meta }

abbrev pub read_merchant : Option Item → Prog (Option Merchant)
read_merchant none = pure none
read_merchant (some item) = do
  merchant_id ← text_field "merchant_id" item
  name ← text_field "name" item
  payable_balance ← number_field "payable_balance" item
  pure (some (record { merchant_id = merchant_id; name = name; payable_balance = payable_balance }))

unfoldable pub get_merchant : String → Prog (Option Merchant)
get_merchant merchant_id = do item ← get (merchant_key merchant_id) false; read_merchant item

abbrev pub merchant_item : Runtime → Merchant → ℕ → Item
merchant_item rt merchant now = attributes (
    (ledger_pk_name, str (merchant_pk merchant.merchant_id))
    ∷ (ledger_sort_key_name, str meta)
    ∷ ("merchant_id", str merchant.merchant_id)
    ∷ ("name", str merchant.name)
    ∷ ("payable_balance", num (pos 0))
    ∷ ("created_at", str (rt.isoformat now))
    ∷ [])

-- `ConditionalCheckFailedException` becomes the given exception.
abbrev pub or_exists : Exception → PutOutcome → Prog (Unit {0})
or_exists e stored = pure tt
or_exists e check_failed = raise e

unfoldable pub insert_merchant : Runtime → Merchant → Prog (Unit {0})
insert_merchant rt merchant = do
  now ← clock
  call (put_item (merchant_item rt merchant now) (attribute_not_exists ledger_pk_name))
      λ r. received r >>= or_exists merchant_already_exists
