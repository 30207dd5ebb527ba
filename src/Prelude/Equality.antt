-- ===== src/Prelude/Equality.antt =====
-- Equality tests as an interface: Go's `==` on numbers, strings, pointers to such, slices.
use Prim.Native.Nat.{ℕ}
use mathlib.Core.Path.{◌≡◌, refl, ap}
use mathlib.Core.Logic.{◌↔◌}
use mathlib.Core.Bool.{Bool, true, false, ◌&&◌}
use mathlib.Core.Option.{Option, none, some}
use mathlib.Core.List.{List, [], ◌∷◌}
use native.Mathlib.Omega.{arith}
use kontext.Prelude.Tests.{nat_beq, and_true}

pub record Comparable {ℓ} (A : Type ℓ) : Type ℓ where
  pub equal : A → A → Bool
  pub equal_iff : (x y : A) → (equal x y ≡ true) ↔ (x ≡ y)

pub nat_beq_iff : (a b : ℕ) → (nat_beq a b ≡ true) ↔ (a ≡ b)
nat_beq_iff a b = ground arith

instance abbrev pub nat_eq : Comparable ℕ
nat_eq = record { equal = nat_beq; equal_iff = nat_beq_iff }

-- Go's operator.
infix 50 ◌==◌
abbrev pub ◌==◌ {ℓ} : {A : Type ℓ} ⦃e : Comparable A⦄ → A → A → Bool
◌==◌ ⦃e⦄ = e.equal

abbrev pub bool_beq : Bool → Bool → Bool
bool_beq true b = b
bool_beq false true = false
bool_beq false false = true

pub bool_beq_iff : (a b : Bool) → (bool_beq a b ≡ true) ↔ (a ≡ b)
bool_beq_iff a b = ground arith

instance abbrev pub bool_eq : Comparable Bool
bool_eq = record { equal = bool_beq; equal_iff = bool_beq_iff }

module _ {ℓ} {A : Type ℓ} ⦃e : Comparable A⦄ where
  pub beq_refl : (a : A) → (a == a) ≡ true
  beq_refl a = (e.equal_iff a a).1 refl

  pub eq_of_beq : (a b : A) → (a == b) ≡ true → a ≡ b
  eq_of_beq a b = (e.equal_iff a b).0

  unfoldable pub list_beq : List A → List A → Bool
  list_beq [] [] = true
  list_beq [] (y ∷ ys) = false
  list_beq (x ∷ xs) [] = false
  list_beq (x ∷ xs) (y ∷ ys) = x == y && list_beq xs ys

  list_beq_sound : (xs ys : List A) → list_beq xs ys ≡ true → xs ≡ ys
  unfolding list_beq
  list_beq_sound [] [] h = refl
  list_beq_sound [] (y ∷ ys) h = cc
  list_beq_sound (x ∷ xs) [] h = cc
  list_beq_sound (x ∷ xs) (y ∷ ys) h =
      let (p, q) = and_true (x == y) (list_beq xs ys) h in
      cc (eq_of_beq x y p, list_beq_sound xs ys q)

  list_beq_self : (xs : List A) → list_beq xs xs ≡ true
  unfolding list_beq
  list_beq_self [] = refl
  list_beq_self (x ∷ xs) = rw (beq_refl x, list_beq_self xs)

  pub list_beq_iff : (xs ys : List A) → (list_beq xs ys ≡ true) ↔ (xs ≡ ys)
  list_beq_iff xs ys = (list_beq_sound xs ys, λ p. rw p (list_beq_self ys))

  abbrev pub option_beq : Option A → Option A → Bool
  option_beq none none = true
  option_beq none (some b) = false
  option_beq (some a) none = false
  option_beq (some a) (some b) = a == b

  option_beq_sound : (a b : Option A) → option_beq a b ≡ true → a ≡ b
  option_beq_sound none none h = refl
  option_beq_sound none (some b) h = cc
  option_beq_sound (some a) none h = cc
  option_beq_sound (some a) (some b) h = ap some (eq_of_beq a b h)

  option_beq_self : (a : Option A) → option_beq a a ≡ true
  option_beq_self none = refl
  option_beq_self (some a) = beq_refl a

  pub option_beq_iff : (a b : Option A) → (option_beq a b ≡ true) ↔ (a ≡ b)
  option_beq_iff a b = (option_beq_sound a b, λ p. rw p (option_beq_self b))

instance abbrev pub list_eq {ℓ} : {A : Type ℓ} ⦃e : Comparable A⦄ → Comparable (List A)
list_eq = record { equal = list_beq; equal_iff = list_beq_iff }

instance abbrev pub option_eq {ℓ} : {A : Type ℓ} ⦃e : Comparable A⦄ → Comparable (Option A)
option_eq = record { equal = option_beq; equal_iff = option_beq_iff }
