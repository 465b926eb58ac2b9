-- ===== src/Books/Spec.antt =====
-- What a ledger of holds promises, with no table: the accounts, each with its money and the part of
-- it that is reserved, and the pending holds. Every amount is moved in one step.
use pay_ledger.Prelude.{
  String, ◌≡◌, ◌≢◌, sym, ◌∙◌, Option, none, some, some_inj, arith, inl, inr, Bool-cases, ◌==◌,
  eq_iff, subst,
}
use pay_ledger.Prelude.Int.{ℤ, pos, ◌+ℤ◌, ◌-ℤ◌, ◌≤ℤ◌, int_laws, parts_of_eq}
use pay_ledger.Store.Key.{Key}

pub record Balance : Type 0 where
  pub current : ℤ
  pub reserved : ℤ

-- A hold is known by its key.
pub record Book : Type 0 where
  pub accounts : String → Option Balance
  pub pending : Key → ℤ

-- The account `b` gets the balance `y`; the others keep theirs.
pub record Sets (b : String) (y : Balance) (v w : Book) : Type 0 where
  pub own : w.accounts b ≡ some y
  pub others : (a : String) → b ≢ a → w.accounts a ≡ v.accounts a

-- The hold `k` gets the pending amount `n`; the others keep theirs.
pub record Marks (k : Key) (n : ℤ) (v w : Book) : Type 0 where
  pub own : w.pending k ≡ n
  pub others : (j : Key) → k ≢ j → w.pending j ≡ v.pending j

pub record KeepsHolds (v w : Book) : Type 0 where
  pub same : (k : Key) → w.pending k ≡ v.pending k

-- A step of the ledger. A hold is placed only on money that is not reserved yet; a capture and a
-- release take up the whole amount of one pending hold.
pub data Move (v w : Book) : Type 0 where
  idle : ((a : String) → w.accounts a ≡ v.accounts a) → KeepsHolds v w → Move v w
  open_account :
      (b : String)
      → v.accounts b ≡ none
      → Sets b (record { current = pos 0; reserved = pos 0 }) v w
      → KeepsHolds v w
      → Move v w
  deposit :
      (b : String) (n : ℤ) (x y : Balance)
      → pos 0 ≤ℤ n
      → v.accounts b ≡ some x
      → y.current ≡ x.current +ℤ n
      → y.reserved ≡ x.reserved
      → Sets b y v w
      → KeepsHolds v w
      → Move v w
  place :
      (b : String) (k : Key) (n : ℤ) (x y : Balance)
      → pos 0 ≤ℤ n
      → v.accounts b ≡ some x
      → y.current ≡ x.current
      → y.reserved ≡ x.reserved +ℤ n
      → y.reserved ≤ℤ y.current
      → v.pending k ≡ pos 0
      → Sets b y v w
      → Marks k n v w
      → Move v w
  capture :
      (b : String) (k : Key) (n : ℤ) (x y : Balance)
      → pos 0 ≤ℤ n
      → v.accounts b ≡ some x
      → y.current ≡ x.current -ℤ n
      → y.reserved ≡ x.reserved -ℤ n
      → v.pending k ≡ n
      → Sets b y v w
      → Marks k (pos 0) v w
      → Move v w
  release :
      (b : String) (k : Key) (n : ℤ) (x y : Balance)
      → pos 0 ≤ℤ n
      → v.accounts b ≡ some x
      → y.current ≡ x.current
      → y.reserved ≡ x.reserved -ℤ n
      → v.pending k ≡ n
      → Sets b y v w
      → Marks k (pos 0) v w
      → Move v w

-- Any number of steps.
pub data Moves (v : Book) : Book → Type 0 where
  done : Moves v v
  then_move : {w x : Book} → Moves v w → Move w x → Moves v x

-- No account has more reserved than it has.
pub record IsCovered (v : Book) : Type 0 where
  pub covered : (a : String) (x : Balance) → v.accounts a ≡ some x → x.reserved ≤ℤ x.current

Sets-IsCovered :
    (b : String) (y : Balance) (v w : Book)
    → Sets b y v w
    → y.reserved ≤ℤ y.current
    → IsCovered v
    → IsCovered w
Sets-IsCovered b y v w s h c = record {
  covered = λ a x e. elim (Bool-cases (b == a)) [
    | inl same ↦
        let here : w.accounts a ≡ some y =
          subst (λ (d : String). w.accounts d ≡ some y) ((eq_iff b a).0 same) s.own in
        let is : y ≡ x = some_inj (sym here ∙ e) in
        subst (λ (z : Balance). z.reserved ≤ℤ z.current) is h
    | inr other ↦ c.covered a x (sym (s.others a (λ p. cc ((eq_iff b a).1 p, other))) ∙ e)
  ];
}

-- The steps keep every account covered.
pub Move-IsCovered : (v w : Book) → Move v w → IsCovered v → IsCovered w
Move-IsCovered v w (Move.idle same keeps) c = record {
  covered = λ a x e. c.covered a x (sym (same a) ∙ e);
}
Move-IsCovered v w (Move.open_account b new s keeps) c = Sets-IsCovered b _ v w s (omega arith) c
Move-IsCovered v w (Move.deposit b n x y nonneg at p q s keeps) c =
    let h = c.covered b x at in
    Sets-IsCovered b y v w s (omega (int_laws, parts_of_eq p, parts_of_eq q, h, nonneg)) c
Move-IsCovered v w (Move.place b k n x y nonneg at p q h free s marks) c =
    Sets-IsCovered b y v w s h c
Move-IsCovered v w (Move.capture b k n x y nonneg at p q was s marks) c =
    let h = c.covered b x at in
    Sets-IsCovered b y v w s (omega (int_laws, parts_of_eq p, parts_of_eq q, h)) c
Move-IsCovered v w (Move.release b k n x y nonneg at p q was s marks) c =
    let h = c.covered b x at in
    Sets-IsCovered b y v w s (omega (int_laws, parts_of_eq p, parts_of_eq q, h, nonneg)) c
