-- ===== src/Books/Advance.antt =====
-- A step of the books: the table stays sound, its rows evolve, and the book makes a move.
use pay_ledger.Prelude.{String, ◌≡◌, refl, true, some, List, [], ◌∷◌, ◌++◌}
use pay_ledger.Prelude.Int.{ℤ, pos, ◌+ℤ◌, ◌-ℤ◌, ◌≤ℤ◌}
use pay_ledger.Store.Item.{num, Item}
use pay_ledger.Store.Key.{Key, account_pk, is_hold}
use pay_ledger.Store.Table.{Table, lookup, insert}
use pay_ledger.Store.Transact.{insert_all}
use pay_ledger.Ledger.Accounts.{account_key}
use pay_ledger.Books.View.{IsSound, Evolves, BalancedAt, held, pending_amount}
use pay_ledger.Books.Change.{HasSoundRows, Evolves-refl}
use pay_ledger.Books.Settle.{
  SameBooks, SameBooks-refl, SameBooks-insert, IsAside, Wrote-credit, Wrote-settle,
  WroteHold-settle, Wrote-BalancedAt, credit-holds,
}
use pay_ledger.Books.Spec.{Balance, Sets, Marks, KeepsHolds, Move}
use pay_ledger.Books.Abstraction.{
  book, Wrote-Sets, WroteHold-Marks, holds-KeepsHolds, SameBooks-Move,
}
use pay_ledger.Books.Conserved.{Conserves, Conserves-refl}
use pay_ledger.Books.Rows.{AllChange, HasSoundRows-insert_all, Evolves-insert_all}

pub record Advances (t u : Table) : Type 0 where
  pub sound : IsSound u
  pub evolves : Evolves t u
  pub moved : Move (book t) (book u)
  pub conserves : Conserves t u

pub Advances-refl : {t : Table} → IsSound t → Advances t t
Advances-refl {t} s = record {
  sound = s;
  evolves = Evolves-refl t;
  moved = SameBooks-Move t t (SameBooks-refl t);
  conserves = Conserves-refl t;
}

pub sound_rows : {t : Table} → IsSound t → HasSoundRows t
sound_rows s = record { indexed = s.indexed; keyed = s.keyed }

pub advance :
    (t : Table) (rows : List (Key × Item))
    → IsSound t
    → AllChange t rows
    → ((a : String)
        → BalancedAt (lookup (account_key a) (insert_all rows t)) (held a (insert_all rows t)))
    → Move (book t) (book (insert_all rows t))
    → Conserves t (insert_all rows t)
    → Advances t (insert_all rows t)
advance t rows s c balanced moved conserves =
    let after = HasSoundRows-insert_all t (sound_rows s) rows t (sound_rows s) c in
    record {
      sound = record { balanced = balanced; indexed = after.indexed; keyed = after.keyed };
      evolves = Evolves-insert_all t rows t (Evolves-refl t) c;
      moved = moved;
      conserves = conserves;
    }

abbrev pub AllAside : List (Key × Item) → Type 0
AllAside [] = Unit
AllAside ((k, v) ∷ rows) = IsAside k × AllAside rows

SameBooks-insert_all :
    (t : Table) (rows : List (Key × Item)) (u : Table)
    → AllAside rows
    → SameBooks t u
    → SameBooks t (insert_all rows u)
unfolding insert_all
SameBooks-insert_all t [] u aside s = s
SameBooks-insert_all t ((k, v) ∷ rows) u aside s =
    SameBooks-insert_all t rows (insert k v u) aside.1 (SameBooks-insert t u k v aside.0 s)

insert_all-append :
    (xs ys : List (Key × Item)) (t : Table)
    → insert_all (xs ++ ys) t ≡ insert_all ys (insert_all xs t)
unfolding insert_all
insert_all-append [] ys t = refl
insert_all-append ((k, v) ∷ xs) ys t = insert_all-append xs ys (insert k v t)

-- A transaction that writes rows aside only.
pub advance_aside :
    (t : Table) (rows : List (Key × Item))
    → IsSound t
    → AllChange t rows
    → AllAside rows
    → Conserves t (insert_all rows t)
    → Advances t (insert_all rows t)
advance_aside t rows s c aside conserves =
    let same = SameBooks-insert_all t rows t aside (SameBooks-refl t) in
    advance t rows s c (λ a. rw (same.accounts a, same.sums a) (s.balanced a))
      (SameBooks-Move t (insert_all rows t) same) conserves

-- What an account's balance becomes is a move of the book.
abbrev pub MovesAccount : Table → String → Balance → Type 0
MovesAccount t b y =
    (x : Table) → Sets b y (book t) (book x) → KeepsHolds (book t) (book x) → Move (book t) (book x)

-- What an account's balance and a hold become is a move of the book.
abbrev pub MovesHold : Table → String → Balance → Key → ℤ → Type 0
MovesHold t b y k n =
    (x : Table) → Sets b y (book t) (book x) → Marks k n (book t) (book x) → Move (book t) (book x)

module _ (t : Table) (sound : IsSound t) (b : String) (v : Item) (available current : ℤ)
    (at_available : v "available_balance" ≡ some (num available))
    (at_current : v "current_balance" ≡ some (num current)) (covered : pos 0 ≤ℤ available) where
  -- One that writes the row of an account first, and then rows aside.
  pub advance_credit :
      (rest : List (Key × Item))
      → AllChange t ((account_key b, v) ∷ rest)
      → AllAside rest
      → available +ℤ held b t ≡ current
      → MovesAccount t b (record { current = current; reserved = held b t })
      → Conserves t (insert_all ((account_key b, v) ∷ rest) t)
      → Advances t (insert_all ((account_key b, v) ∷ rest) t)
  unfolding insert_all
  advance_credit rest c aside adds_up moves conserves =
      let u = insert (account_key b) v t in
      let x = insert_all rest u in
      let after = SameBooks-insert_all u rest u aside (SameBooks-refl u) in
      let wrote = Wrote-credit t x b v after in
      advance t ((account_key b, v) ∷ rest) sound c
        (Wrote-BalancedAt t x b v available current (held b t) wrote sound.balanced at_available
          at_current adds_up covered)
        (moves x (Wrote-Sets t x b v current (held b t) wrote at_current)
          (holds-KeepsHolds t x (credit-holds t x b v after)))
        conserves

  -- One that writes the row of an account, rows aside, the row of a hold, and rows aside.
  pub advance_settle :
      (mid : List (Key × Item)) (hk : Key) (hold : Item) (rest : List (Key × Item))
      → AllChange t ((account_key b, v) ∷ mid ++ (hk, hold) ∷ rest)
      → AllAside mid
      → AllAside rest
      → hk.pk ≡ account_pk b
      → is_hold hk ≡ true
      → (old_pending new_pending : ℤ) → pending_amount (lookup hk t) ≡ old_pending
      → pending_amount (some hold) ≡ new_pending
      → available +ℤ (held b t +ℤ new_pending -ℤ old_pending) ≡ current
      → MovesHold t b
          (record { current = current; reserved = held b t +ℤ new_pending -ℤ old_pending })
          hk
          new_pending
      → Conserves t (insert_all ((account_key b, v) ∷ mid ++ (hk, hold) ∷ rest) t)
      → Advances t (insert_all ((account_key b, v) ∷ mid ++ (hk, hold) ∷ rest) t)
  unfolding insert_all
  advance_settle mid hk hold rest c aside_mid aside_rest p h old_pending new_pending was is adds_up
        moves conserves =
      let u = insert (account_key b) v t in
      let w = insert_all mid u in
      let x = insert_all rest (insert hk hold w) in
      let before = SameBooks-insert_all u mid u aside_mid (SameBooks-refl u) in
      let after =
        SameBooks-insert_all (insert hk hold w) rest (insert hk hold w) aside_rest
          (SameBooks-refl (insert hk hold w)) in
      let reserved = held b t +ℤ new_pending -ℤ old_pending in
      let wrote = Wrote-settle t w x b v hk hold before after p h old_pending new_pending was is in
      let marked = WroteHold-settle t w x b v hk hold before after p h in
      let written = insert_all-append mid ((hk, hold) ∷ rest) u in
      advance t ((account_key b, v) ∷ mid ++ (hk, hold) ∷ rest) sound c
        (rw written (
          Wrote-BalancedAt t x b v available current reserved wrote sound.balanced at_available
            at_current adds_up covered))
        (rw written (
          moves x (Wrote-Sets t x b v current reserved wrote at_current)
            (WroteHold-Marks t x hk hold new_pending h marked is)))
        conserves
