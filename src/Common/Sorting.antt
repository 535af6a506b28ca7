-- ===== src/Common/Sorting.antt =====
-- Python's `sorted`, over any order, and the order of texts.
use ble_usage_meter.Common.Tests.{ltb, eqb, if◌then◌else◌, Bool-cases}
use ble_usage_meter.Common.Text.{Str, str_eq}
use ble_usage_meter.Common.Lists.{All, All-map, All-take, take}
use mathlib.Core.Path.{◌≡◌, refl}
use mathlib.Core.Logic.{inl, inr}
use mathlib.Core.Bool.{Bool, true, false, ◌&&◌, ◌||◌}
use mathlib.Core.List.{List, [], ◌∷◌, Perm, Memᴰ}
use mathlib.Core.List.Memᴰ
use Prim.Native.Nat.{ℕ, zero, suc}
use mathlib.Core.List.Perm
use native.Mathlib.Omega.{arith}

-- `<=` on texts.
unfoldable pub leb_str : Str → Str → Bool
leb_str [] t = true
leb_str (c ∷ s) [] = false
leb_str (c ∷ s) (d ∷ t) = ltb c d || (eqb c d && leb_str s t)

pub leb_str_total : (s t : Str) → leb_str s t ≡ false → leb_str t s ≡ true
unfolding leb_str
leb_str_total [] t h = cc
leb_str_total (c ∷ s) [] h = refl
leb_str_total (c ∷ s) (d ∷ t) h = ground (arith, h, leb_str_total s t)

pub leb_str_trans : (s t u : Str) → leb_str s t ≡ true → leb_str t u ≡ true → leb_str s u ≡ true
unfolding leb_str
leb_str_trans [] t u h k = refl
leb_str_trans (c ∷ s) [] u h k = absurd (cc)
leb_str_trans (c ∷ s) (d ∷ t) [] h k = absurd (cc)
leb_str_trans (c ∷ s) (d ∷ t) (e ∷ u) h k = ground (arith, h, k, leb_str_trans s t u)

pub leb_str_antisym : (s t : Str) → leb_str s t ≡ true → leb_str t s ≡ true → str_eq s t ≡ true
unfolding leb_str str_eq
leb_str_antisym [] [] h k = refl
leb_str_antisym [] (d ∷ t) h k = absurd (cc)
leb_str_antisym (c ∷ s) [] h k = absurd (cc)
leb_str_antisym (c ∷ s) (d ∷ t) h k = ground (arith, h, k, leb_str_antisym s t)

-- An order that decides, any two ways.
pub record Order {ℓ} (A : Type ℓ) : Type ℓ where
  pub precedes : A → A → Bool
  pub total : (a b : A) → precedes a b ≡ false → precedes b a ≡ true
  pub trans : (a b c : A) → precedes a b ≡ true → precedes b c ≡ true → precedes a c ≡ true

module _ {ℓ} {A : Type ℓ} (order : Order A) where
  unfoldable pub place : A → List A → List A
  place a [] = a ∷ []
  place a (b ∷ l) = if order.precedes a b then a ∷ b ∷ l else b ∷ place a l

  unfoldable pub sort : List A → List A
  sort [] = []
  sort (a ∷ l) = place a (sort l)

  abbrev pub IsSorted : List A → Type 0
  IsSorted [] = Unit
  IsSorted (a ∷ l) = All (λ b. order.precedes a b ≡ true) l × IsSorted l

  place-Perm : (a : A) (l : List A) → Perm (place a l) (a ∷ l)
  unfolding place
  place-Perm a [] = Perm.refl (a ∷ [])
  place-Perm a (b ∷ l) = elim (Bool-cases (order.precedes a b)) [
    | inl e ↦ rw e (Perm.refl (a ∷ b ∷ l))
    | inr e ↦ rw e (Perm.trans (Perm.cons b (place-Perm a l)) (Perm.swap a b l))
  ]

  place-All : (P : A → Type 0) (a : A) (l : List A) → P a → All P l → All P (place a l)
  unfolding place
  place-All P a [] p h = (p, tt)
  place-All P a (b ∷ l) p h = elim (Bool-cases (order.precedes a b)) [
    | inl e ↦ rw e (p, h)
    | inr e ↦ rw e (h.0, place-All P a l p h.1)
  ]

  place-IsSorted : (a : A) (l : List A) → IsSorted l → IsSorted (place a l)
  unfolding place
  place-IsSorted a [] h = (tt, tt)
  place-IsSorted a (b ∷ l) h = elim (Bool-cases (order.precedes a b)) [
    | inl e ↦ rw e ((e, All-map l (λ c k. order.trans a b c e k) h.0), h)
    | inr e ↦ rw e (
      place-All (λ c. order.precedes b c ≡ true) a l (order.total a b e) h.0,
      place-IsSorted a l h.1,
    )
  ]

  place-Mem : (x a : A) (l : List A) → Memᴰ x (a ∷ l) → Memᴰ x (place a l)
  unfolding place
  place-Mem x a [] m = m
  place-Mem x a (b ∷ l) m = elim (Bool-cases (order.precedes a b)) [
    | inl e ↦ rw e m
    | inr e ↦ rw e (elim (Memᴰ.cases_cons m) [
      | inl here ↦ Memᴰ.tail (place-Mem x a l (Memᴰ.head here))
      | inr later ↦ elim (Memᴰ.cases_cons later) [
        | inl next ↦ Memᴰ.head next
        | inr last ↦ Memᴰ.tail (place-Mem x a l (Memᴰ.tail last))
      ]
    ])
  ]

  pub sort-All : (P : A → Type 0) (l : List A) → All P l → All P (sort l)
  unfolding sort
  sort-All P [] h = tt
  sort-All P (a ∷ l) h = place-All P a (sort l) h.0 (sort-All P l h.1)

  pub sort-Mem : (x : A) (l : List A) → Memᴰ x l → Memᴰ x (sort l)
  unfolding sort
  sort-Mem x [] m = m
  sort-Mem x (a ∷ l) m = elim (Memᴰ.cases_cons m) [
    | inl here ↦ place-Mem x a (sort l) (Memᴰ.head here)
    | inr later ↦ place-Mem x a (sort l) (Memᴰ.tail (sort-Mem x l later))
  ]

  pub take-IsSorted : (n : ℕ) (l : List A) → IsSorted l → IsSorted (take n l)
  take-IsSorted zero l h = tt
  take-IsSorted (suc n) [] h = tt
  take-IsSorted (suc n) (a ∷ l) h = (All-take _ n l h.0, take-IsSorted n l h.1)

  pub sort-Perm : (l : List A) → Perm (sort l) l
  unfolding sort
  sort-Perm [] = Perm.nil
  sort-Perm (a ∷ l) = Perm.trans (place-Perm a (sort l)) (Perm.cons a (sort-Perm l))

  pub sort-IsSorted : (l : List A) → IsSorted (sort l)
  unfolding sort
  sort-IsSorted [] = tt
  sort-IsSorted (a ∷ l) = place-IsSorted a (sort l) (sort-IsSorted l)
