-- ===== src/Ledger/Sweep/Pages.antt =====
-- The scan of expired holds over pages: what it returns, and how many rounds it takes.
use pay_ledger.Prelude.{ℕ, zero, suc, ◌≤◌, arith, String, ◌≡◌, refl, Option, none, some, List, ◌++◌}
use pay_ledger.Store.Item.{Item}
use pay_ledger.Store.Key.{Key}
use pay_ledger.Program.{Prog, ◌>>=◌, received, scan_expired, Reply, reply, Page}
use pay_ledger.Program.Service.{DynamoDb, Result, returned, run}
use pay_ledger.Ledger.Sweep.{or_more, scan_pages}

module _ (d : DynamoDb) (today : String) where
  open d use {State, answer}

  -- From the state and the start key, the service answers with pages up to one that has no
  -- `LastEvaluatedKey`.
  pub data Paged : State → Option Key → Type 0 where
    last :
        (s : State) (start : Option Key) (page : Page)
        → (answer (scan_expired "PENDING" today start) s).0 ≡ reply page
        → page.last_evaluated_key ≡ none
        → Paged s start
    more :
        (s : State) (start : Option Key) (page : Page) (k : Key)
        → (answer (scan_expired "PENDING" today start) s).0 ≡ reply page
        → page.last_evaluated_key ≡ some k
        → Paged (answer (scan_expired "PENDING" today start) s).1 (some k)
        → Paged s start

  unfoldable pub page_count : {s : State} {start : Option Key} → Paged s start → ℕ
  page_count (last s start page e n) = 1
  page_count (more s start page k e n rest) = suc (page_count rest)

  -- The items of the pages, in their order, after those that are there.
  unfoldable pub gathered : {s : State} {start : Option Key} → Paged s start → List Item → List Item
  gathered (last s start page e n) items = items ++ page.items
  gathered (more s start page k e n rest) items = gathered rest (items ++ page.items)

  after_page :
      (x : Reply Page) (page : Page) (u : State) (o : Option Key) (items : List Item)
      (next : List Item → Key → Prog (List Item)) (wanted : Result (List Item))
      → x ≡ reply page
      → page.last_evaluated_key ≡ o
      → (run d (or_more o (items ++ page.items) (next (items ++ page.items))) u).0 ≡ wanted
      → (run d
          (received x >>= λ p.
            or_more p.last_evaluated_key (items ++ p.items) (next (items ++ p.items)))
          u).0
        ≡ wanted
  after_page x page u o items next wanted e n h = rw (e, n) h

  -- Where the service answers with pages up to a last one, and the bound is at least their number,
  -- the scan returns the items of all the pages, in their order, after those it began with.
  pub scan_pages-Paged :
      {s : State} {start : Option Key} (p : Paged s start) (fuel : ℕ) (items : List Item)
      → page_count p ≤ fuel
      → (run d (scan_pages fuel today start items) s).0 ≡ returned (gathered p items)
  unfolding scan_pages page_count gathered
  scan_pages-Paged (last s start page e n) zero items h = absurd (omega (arith, h))
  scan_pages-Paged (last s start page e n) (suc fuel) items h =
      after_page _ page _ none items (λ more k. scan_pages fuel today (some k) more) _ e n refl
  scan_pages-Paged (more s start page k e n rest) zero items h = absurd (omega (arith, h))
  scan_pages-Paged (more s start page k e n rest) (suc fuel) items h =
      after_page _ page _ (some k) items (λ more k. scan_pages fuel today (some k) more) _ e n
        (scan_pages-Paged rest fuel (items ++ page.items) (omega (arith, h)))
