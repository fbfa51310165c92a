-- ===== src/Prelude/Order.antt =====
-- Comparators: the sign of a JavaScript comparator's result as an `Ordering`, and `||` between two
-- of them.
use Prim.Native.Nat.{compare, Ordering}
use mathlib.Core.Path.{◌≡◌}
use mathlib.Core.Logic.{◌≢◌}
use native.Mathlib.Omega.{arith}
use sauryctf.Prelude.Int.{compare_ℤ}

-- The sign with the arguments swapped.
abbrev pub swap : Ordering → Ordering
swap Ordering.lt = Ordering.gt
swap Ordering.eq = Ordering.eq
swap Ordering.gt = Ordering.lt

-- `a || b` on the results of two comparators: 0 is falsy.
infixr 30 ◌or_then◌
abbrev pub ◌or_then◌ : Ordering → Ordering → Ordering
Ordering.lt or_then o = Ordering.lt
Ordering.eq or_then o = o
Ordering.gt or_then o = Ordering.gt

-- The comparator does not put `b` before `a`.
abbrev pub Before {ℓ} : {A : Type ℓ} → (A → A → Ordering) → A → A → Type 0
Before cmp a b = cmp a b ≢ Ordering.gt

-- What `sort` asks of a comparator: it describes one total preorder.
pub record IsComparator {ℓ} {A : Type ℓ} (cmp : A → A → Ordering) : Type ℓ where
  pub anti : (a b : A) → cmp b a ≡ swap (cmp a b)
  pub trans : (a b c : A) → Before cmp a b → Before cmp b c → Before cmp a c

module _ {ℓ} {A : Type ℓ} {f g : A → A → Ordering} (cf : IsComparator f) (cg : IsComparator g) where
  -- Lexicographic order, `f(a, b) || g(a, b)`.
  pub or_then-IsComparator : IsComparator (λ a b. f a b or_then g a b)
  or_then-IsComparator = record {
    anti = λ a b. ground (arith, cf.anti a b, cg.anti a b);
    trans = λ a b c p q. ground (
      arith,
      cf.anti a b,
      cf.anti b c,
      cf.anti a c,
      cf.trans a b c,
      cf.trans b c a,
      cf.trans c a b,
      cg.trans a b c,
    );
  }

pub compare-IsComparator : IsComparator compare
compare-IsComparator = record { anti = λ a b. ground arith; trans = λ a b c p q. ground arith }

pub compare_ℤ-IsComparator : IsComparator compare_ℤ
compare_ℤ-IsComparator = record { anti = λ a b. ground arith; trans = λ a b c p q. ground arith }

module _ {ℓ κ} {A : Type ℓ} {B : Type κ} (f : B → A) {cmp : A → A → Ordering} where
  -- A comparator of a key.
  pub on-IsComparator : IsComparator cmp → IsComparator (λ a b. cmp (f a) (f b))
  on-IsComparator c = record {
    anti = λ a b. c.anti (f a) (f b);
    trans = λ a b d. c.trans (f a) (f b) (f d);
  }

module _ {ℓ} {A : Type ℓ} {cmp : A → A → Ordering} where
  -- The other direction.
  pub swap-IsComparator : IsComparator cmp → IsComparator (λ a b. cmp b a)
  swap-IsComparator c = record { anti = λ a b. c.anti b a; trans = λ a b d p q. c.trans d b a q p }
