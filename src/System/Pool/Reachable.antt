-- ===== src/System/Pool/Reachable.antt =====
-- The books of the deployed service, at every point of every run.
use pay_ledger.Prelude.{String, ◌≡◌, ◌≢◌, refl, inl, inr, true, some, []}
use pay_ledger.Store.Item.{str, Item}
use pay_ledger.Store.Key.{Key, is_hold}
use pay_ledger.Store.Table.{lookup}
use pay_ledger.Program.Service.{DynamoDb, Documented}
use pay_ledger.Runtime.{Runtime, PositiveAmounts}
use pay_ledger.Ledger.Accounts.{account_key}
use pay_ledger.Books.View.{Evolves, BalancedAt, held}
use pay_ledger.Books.Spec.{Moves, done, then_move}
use pay_ledger.Books.Abstraction.{book}
use pay_ledger.Books.Money.{worth}
use pay_ledger.Books.Postings.{postings}
use pay_ledger.Books.Conserved.{Conserves, Conserves-refl, Conserves-trans}
use pay_ledger.Books.Change.{Evolves-refl, Evolves-trans}
use pay_ledger.System.Pool.{
  Config, Step, Run, HasFreshIds, AllSafe, handler-Safe, AllSafe-later, middle, replaced, removed,
}
use pay_ledger.System.Serve.{InOrder, serve-Advances, serve-Tells, serve_order}

module _ (d : DynamoDb) (rt : Runtime) where
  open d use {State, table, past, answer}

  -- What holds at every point: the table is in order, and each handler's next writes keep it so.
  record IsSteady (c : Config d rt) : Type 0 where
    order : InOrder d c.state
    safe : AllSafe c.working (table c.state)

  module _ (laws : Documented d) (amounts : PositiveAmounts rt) where
    run-IsSteady :
        {c c' : Config d rt} (run : Run d rt c c')
        → HasFreshIds d rt run
        → IsSteady c
        → IsSteady c'
          × Evolves (table c.state) (table c'.state)
          × Moves (book (table c.state)) (book (table c'.state))
          × Conserves (table c.state) (table c'.state)
    run-IsSteady (Run.start c) fresh steady = (steady, Evolves-refl _, done, Conserves-refl _)
    run-IsSteady (Run.next run (Step.arrive j s ps)) fresh steady =
        let (now, ev, moves, kept) = run-IsSteady run fresh steady in
        (
          record { order = now.order; safe = (handler-Safe rt amounts j _, now.safe) },
          ev,
          moves,
          kept,
        )
    run-IsSteady (Run.next run (Step.serve s before after r k)) fresh steady =
        let (now, ev, moves, kept) = run-IsSteady run fresh.0 steady in
        let safe = middle before after _ _ now.safe in
        let allowed = safe.0 (table s) (Evolves-refl _) now.order.sound in
        let adv = serve-Advances d laws s now.order r allowed fresh.1 in
        let told = serve-Tells d laws s now.order r in
        let rest = safe.1 _ _ adv.evolves told in
        (
          record {
            order = serve_order d laws s now.order r adv;
            safe = replaced before after _ _ _ (AllSafe-later _ now.safe adv.evolves) rest;
          },
          Evolves-trans ev adv.evolves,
          then_move moves adv.moved,
          Conserves-trans kept adv.conserves,
        )
    run-IsSteady (Run.next run (Step.stop s before after p)) fresh steady =
        let (now, ev, moves, kept) = run-IsSteady run fresh steady in
        (record { order = now.order; safe = removed before after _ _ now.safe }, ev, moves, kept)

    module _ (s : State) (order : InOrder d s) where
      begin : IsSteady (record { state = s; working = [] })
      begin = record { order = order; safe = tt }

      -- From a table in order with no handler at work, every reachable table has for each account
      -- available_balance + (the sum of its pending holds) = current_balance, with a nonnegative
      -- available balance, where DynamoDB answers as documented, amounts are positive, and fresh
      -- ids do not repeat.
      pub reachable-BalancedAt :
          {c : Config d rt} (run : Run d rt (record { state = s; working = [] }) c)
          → HasFreshIds d rt run
          → (a : String)
          → BalancedAt (lookup (account_key a) (table c.state)) (held a (table c.state))
      reachable-BalancedAt run fresh a = ((run-IsSteady run fresh begin).0).order.sound.balanced a

      -- From a table in order with no handler at work, where DynamoDB answers as documented, amounts
      -- are positive, and fresh ids do not repeat: the book of every reachable table is reached from
      -- the book at the start by moves of the abstract ledger alone (an account is opened with
      -- nothing, a deposit adds to it, a hold is placed on money that is not reserved, and a capture
      -- or a release takes up the whole of one pending hold).
      pub reachable-Moves :
          {c : Config d rt} (run : Run d rt (record { state = s; working = [] }) c)
          → HasFreshIds d rt run
          → Moves (book (table s)) (book (table c.state))
      reachable-Moves run fresh = (run-IsSteady run fresh begin).2

      -- From a table in order with no handler at work, where DynamoDB answers as documented, amounts
      -- are positive, and fresh ids do not repeat: in every reachable table, the sum of the
      -- accounts' current balances and of the merchants' payable balances, less the sum of the
      -- entries of the external funding, is what it was at the start.
      pub reachable-worth :
          {c : Config d rt} (run : Run d rt (record { state = s; working = [] }) c)
          → HasFreshIds d rt run
          → worth (table c.state) ≡ worth (table s)
      reachable-worth run fresh = ((run-IsSteady run fresh begin).3).money_kept

      -- From a table in order with no handler at work, where DynamoDB answers as documented, amounts
      -- are positive, and fresh ids do not repeat: in every reachable table, the sum of the debits of
      -- the ledger less the sum of its credits is what it was at the start.
      pub reachable-postings :
          {c : Config d rt} (run : Run d rt (record { state = s; working = [] }) c)
          → HasFreshIds d rt run
          → postings (table c.state) ≡ postings (table s)
      reachable-postings run fresh = ((run-IsSteady run fresh begin).3).postings_kept

      -- From a table in order with no handler at work, where DynamoDB answers as documented, amounts
      -- are positive, and fresh ids do not repeat: from any reachable point to any later one, an
      -- authorization whose status is not PENDING stays, with the same status and the same amount.
      pub terminal_stays :
          {c c' : Config d rt} (first : Run d rt (record { state = s; working = [] }) c)
          (later : Run d rt c c')
          → HasFreshIds d rt first
          → HasFreshIds d rt later
          → (k : Key) (old : Item) → is_hold k ≡ true
          → lookup k (table c.state) ≡ some old
          → old "status" ≢ some (str "PENDING")
          → (new : Item) × (lookup k (table c'.state) ≡ some new)
            × (new "status" ≡ old "status")
            × (new "amount" ≡ old "amount")
      terminal_stays first later fresh fresh' k old h found closed =
          let ev = (run-IsSteady later fresh' (run-IsSteady first fresh begin).0).1 in
          let (new, found', keeps) = ev.holds k old h found in
          (
            new,
            found',
            elim keeps.closed [ inl p ↦ absurd (closed p) | inr e ↦ e ],
            keeps.kept "amount" refl refl,
          )
