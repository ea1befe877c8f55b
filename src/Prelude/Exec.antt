-- ===== src/Prelude/Exec.antt =====
-- How a call of the C code ends: with a value, in undefined behaviour, in an error that
-- PostgreSQL reports to the client, or not at all within the fuel of a loop.
use mathlib.Core.Path.{◌≡◌, refl}
use Prim.Native.String.{String}

-- Undefined behaviour of the C code, whether or not the backend goes down with it. `misread_node` is
-- a node that is read as one of another type.
pub data Crash : Type 0 where
  null_dereference division_by_zero assertion_failed buffer_overflow uninitialised_read pfree_null
        misread_node :
      Crash

-- The `errcode`, the option or the text that the message names, and the hint where it is computed.
pub data Report : Type 0 where
  invalid_option_name : String → (hint : String) → Report
  invalid_attribute_value : String → Report
  option_name_not_found : String → Report
  cache_lookup_failed : Report
  feature_not_supported : Report

pub data Exec {ℓ} (A : Type ℓ) : Type ℓ where
  ok : A → Exec A
  crash : Crash → Exec A
  error : Report → Exec A
  unfinished : Exec A

-- What follows runs only on a value; anything else is passed on.
infixl 5 ◌>>=◌
abbrev pub ◌>>=◌ {ℓ κ} : {A : Type ℓ} {B : Type κ} → Exec A → (A → Exec B) → Exec B
unfinished >>= next = unfinished
crash c >>= next = crash c
error r >>= next = error r
ok a >>= next = next a

pub ok-injective {ℓ} : {A : Type ℓ} {a b : A} → ok a ≡ ok b → a ≡ b
ok-injective h = cc

module _ {ℓ κ} {A : Type ℓ} {B : Type κ} where
  -- Where a sequence gives a value, its first part does.
  pub >>=-eq-ok :
      (first : Exec A) (next : A → Exec B) {b : B}
      → (first >>= next) ≡ ok b
      → (a : A) × (first ≡ ok a) × (next a ≡ ok b)
  >>=-eq-ok unfinished next h = cc
  >>=-eq-ok (crash c) next h = cc
  >>=-eq-ok (error r) next h = cc
  >>=-eq-ok (ok a) next h = (a, refl, h)

  pub >>=-assoc {μ} :
      {C : Type μ} (m : Exec A) (f : A → Exec B) (g : B → Exec C)
      → ((m >>= f) >>= g) ≡ (m >>= λ a. f a >>= g)
  >>=-assoc (ok a) f g = refl
  >>=-assoc (crash c) f g = refl
  >>=-assoc (error r) f g = refl
  >>=-assoc unfinished f g = refl

  pub >>=-cong : (m : Exec A) {f g : A → Exec B} → ((a : A) → f a ≡ g a) → (m >>= f) ≡ (m >>= g)
  >>=-cong (ok a) h = h a
  >>=-cong (crash c) h = refl
  >>=-cong (error r) h = refl
  >>=-cong unfinished h = refl
