-- ===== src/Common/Text.antt =====
-- Text and bytes as lists of numbers: a Python `str` is its code points, `bytes` its octets.
-- `Key` is the interface of key types; every dict and set of the program is keyed through it.
use Prim.Native.Nat.{ℕ, ◌+◌}
use Prim.Native.Char.{code}
use Prim.Native.String.{String}
use mathlib.Core.Path.{◌≡◌, refl}
use mathlib.Core.Logic.{◌↔◌}
use mathlib.Core.Bool.{Bool, true, false, ◌&&◌}
use mathlib.Core.List.{List, [], ◌∷◌, map}
use native.Mathlib.Omega.{arith}
use ble_usage_meter.Common.Tests.{eqb, leb, if◌then◌else◌}

pub record Key {ℓ} (A : Type ℓ) : Type ℓ where
  pub same : A → A → Bool
  pub same_iff : (x y : A) → (same x y ≡ true) ↔ (x ≡ y)

infix 50 ◌==◌
abbrev pub ◌==◌ {ℓ} : {A : Type ℓ} ⦃e : Key A⦄ → A → A → Bool
◌==◌ ⦃e⦄ = e.same

pub ==-refl {ℓ} : {A : Type ℓ} ⦃e : Key A⦄ (a : A) → (a == a) ≡ true
==-refl ⦃e⦄ a = (e.same_iff a a).1 refl

abbrev pub Str : Type 0
Str = List ℕ

abbrev pub Bytes : Type 0
Bytes = List ℕ

unfoldable pub str_eq : Str → Str → Bool
str_eq [] [] = true
str_eq [] (d ∷ t) = false
str_eq (c ∷ s) [] = false
str_eq (c ∷ s) (d ∷ t) = eqb c d && str_eq s t

pub str_eq_iff : (s t : Str) → (str_eq s t ≡ true) ↔ (s ≡ t)
unfolding str_eq
str_eq_iff [] [] = ground arith
str_eq_iff [] (d ∷ t) = ground arith
str_eq_iff (c ∷ s) [] = ground arith
str_eq_iff (c ∷ s) (d ∷ t) = ground (arith, str_eq_iff s t)

instance abbrev pub str_is_eq : Key Str
str_is_eq = record { same = str_eq; same_iff = str_eq_iff }

-- Keys that are pairs or triples of texts compare part by part.
abbrev pub pair_eq : Str × Str → Str × Str → Bool
pair_eq (a, b) (c, d) = str_eq a c && str_eq b d

pub pair_eq_iff : (p q : Str × Str) → (pair_eq p q ≡ true) ↔ (p ≡ q)
pair_eq_iff (a, b) (c, d) = ground (arith, str_eq_iff a c, str_eq_iff b d)

instance abbrev pub pair_is_eq : Key (Str × Str)
pair_is_eq = record { same = pair_eq; same_iff = pair_eq_iff }

abbrev pub triple_eq : Str × Str × Bytes → Str × Str × Bytes → Bool
triple_eq (a, b, c) (x, y, z) = str_eq a x && (str_eq b y && str_eq c z)

pub triple_eq_iff : (p q : Str × Str × Bytes) → (triple_eq p q ≡ true) ↔ (p ≡ q)
triple_eq_iff (a, b, c) (x, y, z) = ground (arith, str_eq_iff a x, str_eq_iff b y, str_eq_iff c z)

instance abbrev pub triple_is_eq : Key (Str × Str × Bytes)
triple_is_eq = record { same = triple_eq; same_iff = triple_eq_iff }

-- A literal of the program as code points.
abbrev pub text : String → Str
text String.[] = []
text (String.◌∷◌ c s) = code c ∷ text s

-- `str.lower` on ASCII letters; other characters stay.
unfoldable pub lower_char : ℕ → ℕ
lower_char c = if leb b'A' c && leb c b'Z' then c + 32 else c

abbrev pub lower : Str → Str
lower s = map lower_char s

pub lower_char_idem : (c : ℕ) → lower_char (lower_char c) ≡ lower_char c
unfolding lower_char
lower_char_idem c = ground arith
