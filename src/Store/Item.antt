-- ===== src/Store/Item.antt =====
-- Items of the table: attribute names to values, as the dictionaries that the program hands to
-- boto3 and gets back. A number is a whole number of cents or a count of seconds.
use pay_ledger.Prelude.{String, Option, none, some, List, [], ◌∷◌, ◌==◌, if◌then◌else◌}
use pay_ledger.Prelude.Int.{ℤ}

pub data Value : Type 0 where
  str : String → Value
  num : ℤ → Value
  null : Value

abbrev pub Item : Type 0
Item = String → Option Value

-- `{"name": value, …}`
abbrev pub attributes : List (String × Value) → Item
attributes [] name = none
attributes ((n, v) ∷ rest) name = if n == name then some v else attributes rest name

abbrev pub assign : String → Value → Item → Item
assign n v item name = if n == name then some v else item name

-- `cast(str, item[name])`: a missing attribute is a `KeyError`.
abbrev pub as_text : Option Value → Option String
as_text (some (str s)) = some s
as_text _ = none

-- `cast(Decimal, item[name])`
abbrev pub as_number : Option Value → Option ℤ
as_number (some (num n)) = some n
as_number _ = none
