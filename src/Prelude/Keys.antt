-- ===== src/Prelude/Keys.antt =====
-- Keys of maps: an equality test and the order in which a `std::map` keeps its entries.
use Prim.Native.Nat.{ℕ}
use Prim.Native.String.{String, compare}
use mathlib.Core.Path.{◌≡◌}
use mathlib.Core.Logic.{◌↔◌}
use mathlib.Core.Bool.{Bool, true}
use text.Mathlib.Text.{◌==◌ as str_eq, is_lt}
use text.Mathlib.TextEquality.{eq_iff}
use faabric.Prelude.Tests.{ltb, ==_iff, ◌==◌ as nat_eq}

pub record Key (K : Type 0) : Type 0 where
  pub beq : K → K → Bool
  pub before : K → K → Bool
  pub beq_iff : (a b : K) → (beq a b ≡ true) ↔ (a ≡ b)

-- `std::string`'s `==` and `<`, which compares bytes; on UTF-8 that is the order of code points.
abbrev pub same_name : String → String → Bool
same_name = str_eq

abbrev pub name_before : String → String → Bool
name_before a b = is_lt (compare a b)

pub same_name_iff : (a b : String) → (same_name a b ≡ true) ↔ (a ≡ b)
same_name_iff = eq_iff

instance abbrev pub name_key : Key String
name_key = record { beq = str_eq; before = name_before; beq_iff = eq_iff }

abbrev number_key : Key ℕ
number_key = record { beq = nat_eq; before = ltb; beq_iff = ==_iff }
