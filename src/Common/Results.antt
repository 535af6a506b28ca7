-- ===== src/Common/Results.antt =====
-- Exceptions as values: what a Python function raises, by the class of the exception.
use mathlib.Core.Path.{◌≡◌, refl, ap}
use mathlib.Core.Logic.{◌⊎◌, inl, inr}
use mathlib.Core.Bool.{Bool, true, false}
use mathlib.Core.Option.{Option, none, some}

-- `ValueError` (and `ConfigError`, a subclass of it), `OverflowError`, `struct.error`,
-- `UnicodeEncodeError`, `KeyError`, `TypeError`, `sqlite3.IntegrityError`,
-- `sqlite3.OperationalError`, `RuntimeError`,
-- `FileNotFoundError`, `OSError`.
pub data Error : Type 0 where
  value_error config_error overflow_error struct_error unicode_error : Error
  key_error type_error integrity_error operational_error runtime_error missing_file os_error : Error

pub data Result {ℓ} (A : Type ℓ) : Type ℓ where
  ok : A → Result A
  err : Error → Result A

-- How an awaited call ends: `KeyboardInterrupt` is not an `Exception`, and ends the whole run.
pub data Await : Type 0 where
  completed interrupted : Await
  broken : Error → Await

pub Result-cases {ℓ} :
    {A : Type ℓ} (r : Result A) → ((a : A) × (r ≡ ok a)) ⊎ ((e : Error) × (r ≡ err e))
Result-cases (ok a) = inl (a, refl)
Result-cases (err e) = inr (e, refl)

-- What of two calls ends the one after the other.
abbrev pub then_await : Await → Await → Await
then_await completed later = later
then_await stop later = stop

-- What follows a call that may raise.
infixl 5 ◌>>=◌
abbrev pub ◌>>=◌ {ℓ κ} : {A : Type ℓ} {B : Type κ} → Result A → (A → Result B) → Result B
err raised >>= next = err raised
ok a >>= next = next a

-- The same after a call whose value is not used.
infixl 5 ◌>>◌
abbrev pub ◌>>◌ {ℓ} : {B : Type ℓ} → Result (Unit {0}) → Result B → Result B
first >> second = first >>= λ _. second

-- `if bad: raise e`
abbrev pub raise_if : Bool → Error → Result (Unit {0})
raise_if true e = err e
raise_if false e = ok tt

-- The parts of a bind that succeeded.
pub bind-eq-ok {ℓ κ} :
    {A : Type ℓ} {B : Type κ} (call : Result A) (next : A → Result B) {value : B}
    → (call >>= next) ≡ ok value
    → (a : A) × (call ≡ ok a) × (next a ≡ ok value)
bind-eq-ok (err raised) next h = cc
bind-eq-ok (ok a) next h = (a, refl, h)

pub raise_if-eq-ok : (b : Bool) (e : Error) {u : Unit {0}} → raise_if b e ≡ ok u → b ≡ false
raise_if-eq-ok true e h = cc
raise_if-eq-ok false e h = refl

pub ok-injective {ℓ} : {A : Type ℓ} {a b : A} → ok a ≡ ok b → a ≡ b
ok-injective h = cc

pub some-eq {ℓ} : {A : Type ℓ} {a b : A} → some a ≡ some b → a ≡ b
some-eq h = cc

pub bind_assoc {ℓ κ μ} :
    {A : Type ℓ} {B : Type κ} {C : Type μ} (m : Result A) (f : A → Result B) (g : B → Result C)
    → (m >>= f >>= g) ≡ (m >>= λ a. f a >>= g)
bind_assoc (ok a) f g = refl
bind_assoc (err e) f g = refl

-- The value, or that something was raised, whatever its class.
abbrev pub value_or_none {ℓ} : {A : Type ℓ} → Result A → Option A
value_or_none (ok a) = some a
value_or_none (err e) = none

-- Steps that agree up to the class of what is raised make chains that agree.
pub bind-agree {ℓ κ} :
    {A : Type ℓ} {B : Type κ} (m n : Result A) (f g : A → Result B)
    → value_or_none m ≡ value_or_none n
    → ((a : A) → value_or_none (f a) ≡ value_or_none (g a))
    → value_or_none (m >>= f) ≡ value_or_none (n >>= g)
bind-agree (ok a) (ok b) f g h k = let e : a ≡ b = some-eq h in rw e (k b)
bind-agree (ok a) (err e) f g h k = cc
bind-agree (err d) (ok b) f g h k = cc
bind-agree (err d) (err e) f g h k = refl

pub value_or_none-eq-some {ℓ} :
    {A : Type ℓ} {a : A} {m : Result A} → value_or_none m ≡ some a → m ≡ ok a
value_or_none-eq-some {m = ok b} h = ap ok (some-eq h)
value_or_none-eq-some {m = err e} h = cc
