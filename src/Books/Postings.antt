-- ===== src/Books/Postings.antt =====
-- The double entry, over the whole table: the debits less the credits.
use pay_ledger.Prelude.{
  String, ◌≡◌, refl, ap, ◌∙◌, true, false, Bool, ◌==◌, Option, none, some, List, [], ◌∷◌, arith,
  if◌then◌else◌,
}
use pay_ledger.Prelude.Int.{ℤ, pos, ◌+ℤ◌, ◌-ℤ◌, int_laws, parts_of_eq}
use pay_ledger.Store.Item.{Value, str, num, Item}
use pay_ledger.Store.Key.{Key, key_eqb, has_prefix}
use pay_ledger.Store.Table.{Table, lookup, insert, total, total-insert, lookup-insert}
use pay_ledger.Store.Transact.{insert_all}
use pay_ledger.Books.Money.{number, number-read}

abbrev signed_by : Option Value → ℤ → ℤ
signed_by (some (str entry_type)) amount =
    if entry_type == "DEBIT"
    then amount
    else if entry_type == "CREDIT"
    then pos 0 -ℤ amount
    else pos 0
signed_by _ amount = pos 0

-- An entry's amount, of a credit with the other sign.
unfoldable pub signed_amount : Option Item → ℤ
signed_amount none = pos 0
signed_amount (some item) = signed_by (item "entry_type") (number "amount" (some item))

abbrev pub is_entry : Key → Bool
is_entry k = has_prefix "TXN#" k.sk

unfoldable pub posting : Key → Option Item → ℤ
posting k o = if is_entry k then signed_amount o else pos 0

-- The sum of the debits of the ledger, less the sum of its credits.
unfoldable pub postings : Table → ℤ
postings t = total posting t

posting-none : (k : Key) → posting k none ≡ pos 0
unfolding posting signed_amount
posting-none k = ground arith

postings-insert :
    (k : Key) (v : Item) (t : Table)
    → postings (insert k v t) +ℤ posting k (lookup k t) ≡ postings t +ℤ posting k (some v)
unfolding postings
postings-insert k v t = total-insert posting k v t (posting-none k)

posting-other : (k : Key) (o : Option Item) → is_entry k ≡ false → posting k o ≡ pos 0
unfolding posting
posting-other k o h = rw h refl

posting-entry : (k : Key) (o : Option Item) → is_entry k ≡ true → posting k o ≡ signed_amount o
unfolding posting
posting-entry k o h = rw h refl

pub postings-insert_other :
    (k : Key) (v : Item) (t : Table) → is_entry k ≡ false → postings (insert k v t) ≡ postings t
postings-insert_other k v t h = omega (
  int_laws,
  parts_of_eq (postings-insert k v t),
  parts_of_eq (posting-other k (lookup k t) h),
  parts_of_eq (posting-other k (some v) h),
)

abbrev pub NoEntries : List (Key × Item) → Type 0
NoEntries [] = Unit
NoEntries ((k, v) ∷ rows) = (is_entry k ≡ false) × NoEntries rows

pub postings-insert_all :
    (rows : List (Key × Item)) (t : Table)
    → NoEntries rows
    → postings (insert_all rows t) ≡ postings t
unfolding insert_all
postings-insert_all [] t u = refl
postings-insert_all ((k, v) ∷ rows) t u =
    postings-insert_all rows (insert k v t) u.1 ∙ postings-insert_other k v t u.0

postings-insert_entry :
    (k : Key) (v : Item) (t : Table)
    → is_entry k ≡ true
    → lookup k t ≡ none
    → postings (insert k v t) ≡ postings t +ℤ signed_amount (some v)
postings-insert_entry k v t h fresh =
    let gone : posting k (lookup k t) ≡ pos 0 = ap (posting k) fresh ∙ posting-none k in
    omega (
      int_laws,
      parts_of_eq (postings-insert k v t),
      parts_of_eq gone,
      parts_of_eq (posting-entry k (some v) h),
    )

-- What an entry says: its type and its amount.
pub record Says (item : Item) (entry_type : String) (amount : ℤ) : Type 0 where
  pub says_type : item "entry_type" ≡ some (str entry_type)
  pub says_amount : item "amount" ≡ some (num amount)

signed_amount-debit :
    (item : Item) (amount : ℤ) → Says item "DEBIT" amount → signed_amount (some item) ≡ amount
unfolding signed_amount
signed_amount-debit item amount s = rw (s.says_type) (number-read "amount" item s.says_amount)

signed_amount-credit :
    (item : Item) (amount : ℤ)
    → Says item "CREDIT" amount
    → signed_amount (some item) ≡ pos 0 -ℤ amount
unfolding signed_amount
signed_amount-credit item amount s =
    rw (s.says_type) (ap (λ n. pos 0 -ℤ n) (number-read "amount" item s.says_amount))

-- A debit and a credit of one amount, at two keys that the table does not have.
pub postings-posted :
    (k j : Key) (debit credit : Item) (amount : ℤ) (t : Table)
    → is_entry k ≡ true
    → is_entry j ≡ true
    → key_eqb k j ≡ false
    → lookup k t ≡ none
    → lookup j t ≡ none
    → Says debit "DEBIT" amount
    → Says credit "CREDIT" amount
    → postings (insert j credit (insert k debit t)) ≡ postings t
postings-posted k j debit credit amount t hk hj other absent absent' d c =
    let absent_then : lookup j (insert k debit t) ≡ none =
      lookup-insert k j debit t ∙ rw other absent' in
    omega (
      int_laws,
      parts_of_eq (postings-insert_entry k debit t hk absent),
      parts_of_eq (postings-insert_entry j credit (insert k debit t) hj absent_then),
      parts_of_eq (signed_amount-debit debit amount d),
      parts_of_eq (signed_amount-credit credit amount c),
    )
