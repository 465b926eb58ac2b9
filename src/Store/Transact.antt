-- ===== src/Store/Transact.antt =====
-- The writes of the program, and what DynamoDB documents of them: condition expressions, update
-- expressions, and `TransactWriteItems`, which writes all of its items or none and gives a reason
-- for each item, by position, when it is cancelled.
pub mod Inversion
pub mod Refusal
pub mod Progress
use mathlib.Core.Option
use pay_ledger.Prelude.{
  String, Option, none, some, List, [], ◌∷◌, Bool, true, false, ◌&&◌, ◌==◌, if◌then◌else◌,
}
use pay_ledger.Prelude.Int.{ℤ, ◌+ℤ◌, ◌-ℤ◌, leb_ℤ, eqb_ℤ}
use pay_ledger.Store.Item.{Value, str, num, null, Item, attributes, assign, as_text, as_number}
use pay_ledger.Store.Key.{Key, ledger_pk_name, ledger_sort_key_name}
use pay_ledger.Store.Table.{Table, lookup, insert}

-- `ConditionExpression`, with the attribute values put in.
pub data Condition : Type 0 where
  always : Condition
  attribute_not_exists : String → Condition
  at_least : String → ℤ → Condition
  equals : String → Value → Condition
  both : Condition → Condition → Condition

abbrev pub value_eqb : Value → Value → Bool
value_eqb (str s) (str t) = s == t
value_eqb (num m) (num n) = eqb_ℤ m n
value_eqb null null = true
value_eqb _ _ = false

abbrev attribute : String → Option Item → Option Value
attribute name none = none
attribute name (some item) = item name

-- A comparison with a missing attribute is false.
unfoldable pub holds : Condition → Option Item → Bool
holds always old = true
holds (attribute_not_exists name) old = elim (attribute name old) [ none ↦ true | some v ↦ false ]
holds (at_least name n) old = elim (as_number (attribute name old)) [
  | none ↦ false
  | some m ↦ leb_ℤ n m
]
holds (equals name v) old = elim (attribute name old) [ none ↦ false | some w ↦ value_eqb w v ]
holds (both c d) old = holds c old && holds d old

-- The right side of an assignment in an `UpdateExpression`.
pub data Operand : Type 0 where
  constant : Value → Operand
  plus minus : String → ℤ → Operand

-- `none` is a `ValidationException`: a number was expected, and is not there.
abbrev operand_value : Operand → Item → Option Value
operand_value (constant v) item = some v
operand_value (plus name n) item = elim (as_number (item name)) [
  | none ↦ none
  | some m ↦ some (num (m +ℤ n))
]
operand_value (minus name n) item = elim (as_number (item name)) [
  | none ↦ none
  | some m ↦ some (num (m -ℤ n))
]

-- `SET name = operand, …`: the operands read the item as it was.
unfoldable pub assign_all : List (String × Operand) → Item → Item → Option Item
assign_all [] old new = some new
assign_all ((name, op) ∷ rest) old new = elim (operand_value op old) [
  | none ↦ none
  | some v ↦ assign_all rest old (assign name v new)
]

pub data WriteItem : Type 0 where
  put : Item → Condition → WriteItem
  update : Key → List (String × Operand) → Condition → WriteItem

abbrev pub or_empty : Option String → String
or_empty none = ""
or_empty (some s) = s

abbrev pub item_key : Item → Key
item_key item = record {
  pk = or_empty (as_text (item ledger_pk_name));
  sk = or_empty (as_text (item ledger_sort_key_name));
}

abbrev pub write_key : WriteItem → Key
write_key (put item c) = item_key item
write_key (update k set c) = k

pub data Verdict : Type 0 where
  pass : Item → Verdict
  condition_failed : Verdict
  invalid : Verdict

-- An `Update` of a missing item begins with the key alone.
abbrev pub or_new : Key → Option Item → Item
or_new k (some item) = item
or_new k none = attributes ((ledger_pk_name, str k.pk) ∷ (ledger_sort_key_name, str k.sk) ∷ [])

abbrev or_invalid : Option Item → Verdict
or_invalid none = invalid
or_invalid (some item) = pass item

unfoldable pub verdict_on : WriteItem → Option Item → Verdict
unfolding holds assign_all
verdict_on (put item c) old = if holds c old then pass item else condition_failed
verdict_on (update k set c) old =
    if holds c old
    then or_invalid (assign_all set (or_new k old) (or_new k old))
    else condition_failed

unfoldable pub verdict : WriteItem → Table → Verdict
unfolding verdict_on
verdict w t = verdict_on w (lookup (write_key w) t)

-- The rows that a transaction writes, if every item of it passes.
unfoldable pub plan : List WriteItem → Table → Option (List (Key × Item))
plan [] t = some []
plan (w ∷ ws) t = elim (verdict w t) [
  | pass item ↦ Option.map (λ rows. (write_key w, item) ∷ rows) (plan ws t)
  | condition_failed ↦ none
  | invalid ↦ none
]

unfoldable pub insert_all : List (Key × Item) → Table → Table
insert_all [] t = t
insert_all ((k, item) ∷ rows) t = insert_all rows (insert k item t)

-- The code of a cancellation reason.
pub data Code : Type 0 where
  no_error conditional_check_failed validation_error : Code
  other_code : String → Code

abbrev pub verdict_code : Verdict → Code
verdict_code (pass item) = no_error
verdict_code condition_failed = conditional_check_failed
verdict_code invalid = validation_error

unfoldable pub reasons : List WriteItem → Table → List Code
reasons [] t = []
reasons (w ∷ ws) t = verdict_code (verdict w t) ∷ reasons ws t

pub data Outcome : Type 0 where
  committed : Outcome
  cancelled : List Code → Outcome
