-- ===== src/Prelude/Keys.antt =====
-- Equality of keys as an interface: identifiers are texts, and some keys are pairs of texts.
use Prim.Native.String.{String}
use mathlib.Core.Path.{◌≡◌, refl}
use mathlib.Core.Logic.{◌↔◌}
use mathlib.Core.Bool.{Bool, true, ◌&&◌}
use native.Mathlib.Omega.{arith}
use text.Mathlib.Text.{◌==◌ as str_eq}
use text.Mathlib.TextEquality.{eq_iff}

pub record Key {κ} (K : Type κ) : Type κ where
  pub same : K → K → Bool
  pub same_iff : (j k : K) → (same j k ≡ true) ↔ (j ≡ k)

-- `===` on texts.
abbrev pub eqb : String → String → Bool
eqb = str_eq

pub eqb_iff : (a b : String) → (eqb a b ≡ true) ↔ (a ≡ b)
eqb_iff = eq_iff

pub eqb_refl : (a : String) → eqb a a ≡ true
eqb_refl a = (eqb_iff a a).1 refl

instance abbrev pub string_key : Key String
string_key = record { same = eqb; same_iff = eqb_iff }

abbrev pub eqb_pair : String × String → String × String → Bool
eqb_pair p q = eqb p.0 q.0 && eqb p.1 q.1

pub eqb_pair_iff : (p q : String × String) → (eqb_pair p q ≡ true) ↔ (p ≡ q)
eqb_pair_iff p q = ground (arith, eqb_iff p.0 q.0, eqb_iff p.1 q.1)

instance abbrev pub pair_key : Key (String × String)
pair_key = record { same = eqb_pair; same_iff = eqb_pair_iff }
