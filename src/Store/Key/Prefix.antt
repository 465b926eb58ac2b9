-- ===== src/Store/Key/Prefix.antt =====
-- Prefixes of texts, by which the families of keys are told apart.
use Prim.Native.Char.{Char, code}
use Prim.Native.String.{String, [], ◌∷◌, ◌++◌}
use text.Mathlib.TextLemmas.{cons-append}
use mathlib.Core.Bool.{Bool, true, false, ◌&&◌}
use mathlib.Core.Path.{◌≡◌, refl}
use Prim.Native.Nat.{ℕ}
use native.Mathlib.Omega.{arith}
use pay_ledger.Prelude.{eqb}

unfoldable pub has_prefix : String → String → Bool
has_prefix [] s = true
has_prefix (c ∷ p) [] = false
has_prefix (c ∷ p) (d ∷ s) = eqb (code c) (code d) && has_prefix p s

-- The code of the first letter.
unfoldable pub initial : String → ℕ
initial [] = 0
initial (c ∷ s) = code c

pub has_prefix-append : (p s : String) → has_prefix p (p ++ s) ≡ true
unfolding has_prefix
has_prefix-append [] s = refl
has_prefix-append (c ∷ p) s = rw cons-append (ground (arith, has_prefix-append p s))

pub initial-append : (c : Char) (p s : String) → initial ((c ∷ p) ++ s) ≡ code c
unfolding initial
initial-append c p s = rw cons-append

-- A text that begins with another letter does not have the prefix.
pub has_prefix-initial :
    (c : Char) (p s : String) → eqb (code c) (initial s) ≡ false → has_prefix (c ∷ p) s ≡ false
unfolding has_prefix initial
has_prefix-initial c p [] h = refl
has_prefix-initial c p (d ∷ s) h = rw h

pub initial_of_prefix :
    (c : Char) (p s : String) → has_prefix (c ∷ p) s ≡ true → eqb (code c) (initial s) ≡ true
unfolding has_prefix initial
initial_of_prefix c p [] h = cc
initial_of_prefix c p (d ∷ s) h = ground arith
