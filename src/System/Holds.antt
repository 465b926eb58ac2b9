-- ===== src/System/Holds.antt =====
-- The repository methods that end a hold: capture, void, and the sweep.
use pay_ledger.Prelude.{
  ℕ, zero, suc, ◌+◌, String, ◌≡◌, refl, Option, none, some, List, [], ◌∷◌, ◌++◌,
}
use pay_ledger.Prelude.Int.{ℤ, pos}
use pay_ledger.Store.Item.{Item}
use pay_ledger.Store.Key.{Key, concat}
use pay_ledger.Store.Table.{Table}
use pay_ledger.Store.Transact.{Code}
use pay_ledger.Domain.{Authorization, AuthorizationStatus, pending, captured, voided, Response}
use pay_ledger.Program.{
  Prog, ◌>>=◌, Reply, reply, lost, received, Exception, transaction_canceled, Page,
}
use pay_ledger.Program.Service.{All}
use pay_ledger.Runtime.{Runtime}
use pay_ledger.Idempotency.{transact_item, resolve_conflict, check_failed_at}
use pay_ledger.Ledger.Authorizations.{
  read_status, rejected, replay_or_reject, terminal_canceled, capture_authorization,
  void_authorization,
}
use pay_ledger.Ledger.Authorizations.Items.{expire_items}
use pay_ledger.Ledger.Sweep.{
  or_more, scan_pages, get_expired_holds, expire_canceled, expire_hold, expire_all,
  update_expired_holds,
}
use pay_ledger.Books.View.{Evolves}
use pay_ledger.Books.Transactions.Capture.{capture-Advances}
use pay_ledger.Books.Transactions.Release.{void-Advances, expire-Advances}
use pay_ledger.System.Safe.{
  Safe, Anything, Safe-bind, Safe-if, IsPlaced-Evolves, IsShadow, IsShadow-Evolves,
}
use pay_ledger.System.Reads.{IsKnown, resolve_conflict-Safe, read_status-Safe}
use pay_ledger.System.Ledger.{Safe-transact}

module _ (rt : Runtime) where
  rejected-Safe :
      (codes : List Code) (o : Option AuthorizationStatus) (t : Table)
      → Safe Anything (rejected rt codes o) t
  rejected-Safe codes none t = tt
  rejected-Safe codes (some pending) t = tt
  rejected-Safe codes (some _) t = tt

  replay_or_reject-Safe :
      (a : Authorization) (b : String) (i : ℕ) (codes : List Code) (o : Option Response) (t : Table)
      → Safe Anything (replay_or_reject rt a b i codes o) t
  replay_or_reject-Safe a b i codes (some r) t = tt
  replay_or_reject-Safe a b i codes none t =
      Safe-if Anything (check_failed_at i codes) _ _ t
        (Safe-bind Anything Anything (read_status b a.sort_key) (rejected rt codes) t
          (read_status-Safe b a.sort_key t) (λ u o ev q. rejected-Safe codes o u))
        tt

  terminal_canceled-Safe :
      (a : Authorization) (b key : String) (i j : ℕ) (e : Exception) (t : Table)
      → Safe Anything (terminal_canceled rt a b key i j e) t
  unfolding terminal_canceled
  terminal_canceled-Safe a b key i j (transaction_canceled codes) t =
      Safe-bind Anything Anything (resolve_conflict rt key codes i)
        (replay_or_reject rt a b j codes) t (resolve_conflict-Safe rt key codes i t)
        (λ u o ev q. replay_or_reject-Safe a b j codes o u)
  terminal_canceled-Safe a b key i j _ t = tt

  module _ (a : Authorization) (key : String) (build : Authorization → ℤ → Response) where
    pub capture_authorization-Safe :
        (t : Table)
        → IsKnown a t
        → Safe Anything (capture_authorization rt a a.account_id key build) t
    unfolding capture_authorization transact_item
    capture_authorization-Safe t known = (
      λ u ev s. tt,
      λ u hex ev₁ told. (
        λ u ev s. tt,
        λ u now ev₂ told. (
          λ u ev s. tt,
          λ u at ev₃ told.
              let response = build (record a { status = captured; updated_at = now }) (pos 200) in
              let placed =
                IsPlaced-Evolves (IsPlaced-Evolves (IsPlaced-Evolves known ev₁) ev₂) ev₃ in
              Safe-transact response (terminal_canceled rt a a.account_id key 5 4) _ u
                (λ v ev' s rows p fresh.
                  capture-Advances rt v s a a.account_id (IsPlaced-Evolves placed ev')
                    (rt.isoformat now) (concat ("transaction_" ∷ hex ∷ [])) key response at rows p
                    fresh)
                (λ v e. terminal_canceled-Safe a a.account_id key 5 4 e v),
        ),
      ),
    )

    pub void_authorization-Safe :
        (t : Table) → IsKnown a t → Safe Anything (void_authorization rt a a.account_id key build) t
    unfolding void_authorization transact_item
    void_authorization-Safe t known = (
      λ u ev s. tt,
      λ u now ev₁ told. (
        λ u ev s. tt,
        λ u at ev₂ told.
            let response = build (record a { status = voided; updated_at = now }) (pos 200) in
            let placed = IsPlaced-Evolves (IsPlaced-Evolves known ev₁) ev₂ in
            Safe-transact response (terminal_canceled rt a a.account_id key 2 1) _ u
              (λ v ev' s rows p fresh.
                void-Advances rt v s a a.account_id (IsPlaced-Evolves placed ev') (rt.isoformat now)
                  key response at rows p)
              (λ v e. terminal_canceled-Safe a a.account_id key 2 1 e v),
      ),
    )

-- Every item is the image of a placed authorization.
abbrev pub AllShadows : List Item → Table → Type 0
AllShadows items t = All (λ item. IsShadow item t) items

AllShadows-append :
    (xs ys : List Item) (t : Table) → AllShadows xs t → AllShadows ys t → AllShadows (xs ++ ys) t
AllShadows-append [] ys t hx hy = hy
AllShadows-append (x ∷ xs) ys t hx hy = (hx.0, AllShadows-append xs ys t hx.1 hy)

AllShadows-Evolves :
    (xs : List Item) {t u : Table} → AllShadows xs t → Evolves t u → AllShadows xs u
AllShadows-Evolves [] h ev = tt
AllShadows-Evolves (x ∷ xs) h ev = (IsShadow-Evolves h.0 ev, AllShadows-Evolves xs h.1 ev)

or_more-Safe :
    (o : Option Key) (items : List Item) (more : Key → Prog (List Item)) (t : Table)
    → AllShadows items t
    → ((k : Key) → Safe AllShadows (more k) t)
    → Safe AllShadows (or_more o items more) t
or_more-Safe none items more t h s = h
or_more-Safe (some k) items more t h s = s k

scan_pages-Safe :
    (fuel : ℕ) (today : String) (start : Option Key) (items : List Item) (t : Table)
    → AllShadows items t
    → Safe AllShadows (scan_pages fuel today start items) t
unfolding scan_pages
scan_pages-Safe zero today start items t h = tt
scan_pages-Safe (suc fuel) today start items t h = (
  λ u ev s. tt,
  λ u x ev told. after u x told (AllShadows-Evolves items h ev) (scan_pages-Safe fuel today),
)
  where
    after :
        (u : Table) (x : Reply Page)
        → ((page : Page) → x ≡ reply page → AllShadows page.items u)
        → AllShadows items u
        → ((start : Option Key) (more : List Item) (v : Table)
            → AllShadows more v
            → Safe AllShadows (scan_pages fuel today start more) v)
        → Safe AllShadows
            (received x >>= λ page.
              or_more page.last_evaluated_key
                (items ++ page.items)
                (λ k. scan_pages fuel today (some k) (items ++ page.items)))
            u
    after u (reply page) told held ih =
        let all = AllShadows-append items page.items u held (told page refl) in
        or_more-Safe page.last_evaluated_key (items ++ page.items) _ u all
          (λ k. ih (some k) (items ++ page.items) u all)
    after u (lost f) told held ih = tt

expire_canceled-Safe :
    (rt : Runtime) (e : Exception) (t : Table) → Safe Anything (expire_canceled rt e) t
unfolding expire_canceled
expire_canceled-Safe rt (transaction_canceled codes) t =
    Safe-if Anything (check_failed_at 1 codes) _ _ t tt tt
expire_canceled-Safe rt _ t = tt

module _ (rt : Runtime) where
  pub get_expired_holds-Safe :
      (fuel : ℕ) (t : Table) → Safe AllShadows (get_expired_holds rt fuel) t
  unfolding get_expired_holds
  get_expired_holds-Safe fuel t =
      (λ u ev s. tt, λ u today ev told. scan_pages-Safe fuel (rt.date_isoformat today) none [] u tt)

  expire_hold-Safe :
      (now : String) (hold : Item) (t : Table)
      → IsShadow hold t
      → Safe Anything (expire_hold rt now hold) t
  unfolding expire_hold
  expire_hold-Safe now hold t s =
      rw (s.owner, s.holds_back, s.at)
        (Safe-transact 1 (expire_canceled rt) (expire_items s.account_id s.amount s.sort_key now) t
          (λ u ev sound rows p fresh.
            expire-Advances u sound s.account_id s.sort_key s.amount (IsPlaced-Evolves s.placed ev)
              now rows p)
          (λ u e. expire_canceled-Safe rt e u))

  expire_all-Safe :
      (now : String) (count : ℕ) (holds : List Item) (t : Table)
      → AllShadows holds t
      → Safe Anything (expire_all rt now count holds) t
  unfolding expire_all
  expire_all-Safe now count [] t h = tt
  expire_all-Safe now count (hold ∷ rest) t h =
      Safe-bind Anything Anything (expire_hold rt now hold) _ t (expire_hold-Safe now hold t h.0)
        (λ u n ev q. expire_all-Safe now (count + n) rest u (AllShadows-Evolves rest h.1 ev))

  pub update_expired_holds-Safe :
      (holds : List Item) (t : Table)
      → AllShadows holds t
      → Safe Anything (update_expired_holds rt holds) t
  unfolding update_expired_holds
  update_expired_holds-Safe holds t h = (
    λ u ev s. tt,
    λ u now ev told. expire_all-Safe (rt.isoformat now) 0 holds u (AllShadows-Evolves holds h ev),
  )
