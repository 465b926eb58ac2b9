-- ===== src/Store/Transact/Refusal.antt =====
-- A write whose condition fails, at any position of a transaction.
use pay_ledger.Prelude.{◌≡◌, refl, none, some, List, [], ◌∷◌, ◌++◌, arith, length, get_elem?}
use pay_ledger.Store.Table.{Table}
use pay_ledger.Store.Transact.{
  WriteItem, plan, reasons, verdict, condition_failed, conditional_check_failed,
}

-- Nothing is written, and the cancellation reports the position.
pub refused-plan :
    (before : List WriteItem) (w : WriteItem) (after : List WriteItem) (t : Table)
    → verdict w t ≡ condition_failed
    → let ws = before ++ w ∷ after in
      (plan ws t ≡ none)
      × (get_elem? (reasons ws t) (length before) ≡ some conditional_check_failed)
unfolding plan reasons
refused-plan [] w after t failed = (ground (arith, failed), rw failed refl)
refused-plan (x ∷ before) w after t failed =
    let (blocked, reported) = refused-plan before w after t failed in
    (ground (arith, blocked), reported)
