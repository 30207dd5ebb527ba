-- ===== src/Prelude/Decimal.antt =====
-- fmt's %d, strconv.FormatInt in base 10 and strconv.ParseInt(s, 10, 32).
use Prim.Native.Nat.{ℕ, zero, suc, ◌+◌, ◌-◌, ◌*◌, ◌/◌, ◌%◌, ◌^◌, ◌≤◌, ◌<◌}
use mathlib.Core.Logic.{inl, inr}
use mathlib.Core.Path.{◌≡◌, sym, ap, ◌∙◌}
use mathlib.Core.Bool.{Bool, true, ◌&&◌}
use mathlib.Core.Option.{Option, none, some}
use mathlib.Core.List.{[], ◌∷◌}
use native.Mathlib.Omega.{arith}
use kontext.Prelude.Tests.{ltb, leb, if◌then◌else◌, Bool-cases}
use kontext.Prelude.Equality.{◌==◌, nat_eq}
use native.Mathlib.Nat.{pow-suc}
use kontext.Prelude.Lists.{length}
use kontext.Prelude.Int.{ℤ, pos, negsuc}
use kontext.Prelude.Strings.{Text}

-- Digits are put in front of `acc`, the last one first; the fuel is more than the number.
unfoldable pub show_from : ℕ → ℕ → Text → Text
show_from zero n acc = acc
show_from (suc f) n acc =
    let acc' = (48 + n % 10) ∷ acc in
    let more = show_from f (n / 10) acc' in if ltb n 10 then acc' else more

unfoldable pub show_nat : ℕ → Text
unfolding show_from
show_nat n = show_from (suc n) n []

unfoldable pub show_int : ℤ → Text
unfolding show_nat
show_int (pos n) = show_nat n
show_int (negsuc n) = b'-' ∷ show_nat (suc n)

abbrev is_digit : ℕ → Bool
is_digit c = leb 48 c && leb c 57

unfoldable pub read_from : ℕ → Text → Option ℕ
read_from a [] = some a
read_from a (c ∷ s) = if is_digit c then read_from (a * 10 + (c - 48)) s else none

-- At least one digit, and nothing else.
unfoldable pub read_nat : Text → Option ℕ
unfolding read_from
read_nat [] = none
read_nat (c ∷ s) = read_from 0 (c ∷ s)

abbrev pub max_int32 : ℕ
max_int32 = 2147483647

abbrev at_most : ℕ → (ℕ → ℤ) → Option ℕ → Option ℤ
at_most top sign none = none
at_most top sign (some n) = if leb n top then some (sign n) else none

abbrev negate : ℕ → ℤ
negate zero = pos 0
negate (suc n) = negsuc n

-- A sign, then digits; a value out of the int32 range is an error.
unfoldable pub parse_int32 : Text → Option ℤ
unfolding read_nat
parse_int32 [] = none
parse_int32 (c ∷ s) =
    if c == b'-'
    then at_most 2147483648 negate (read_nat s)
    else if c == b'+'
    then at_most max_int32 pos (read_nat s)
    else at_most max_int32 pos (read_nat (c ∷ s))

read-show_from : (f n : ℕ) (acc : Text) → n < f → read_from 0 (show_from f n acc) ≡ read_from n acc
unfolding show_from read_from
read-show_from zero n acc h = elim h [ ]
read-show_from (suc f) n acc h = elim (Bool-cases (ltb n 10)) [
  | inl e ↦ rw e (ground arith)
  | inr e ↦ rw e (read-show_from f (n / 10) ((48 + n % 10) ∷ acc) (ground arith) ∙ ground arith)
]

-- strconv reads what fmt prints.
pub read-show_nat : (n : ℕ) → read_from 0 (show_nat n) ≡ some n
unfolding show_nat read_from
read-show_nat n = read-show_from (suc n) n [] (omega arith)

-- A printed number begins with a digit.
show_from_head :
    (f n : ℕ) (acc : Text)
    → n < f
    → (c : ℕ) × (r : Text) × (show_from f n acc ≡ c ∷ r) × (48 ≤ c) × (c ≤ 57)
unfolding show_from
show_from_head zero n acc h = elim h [ ]
show_from_head (suc f) n acc h = elim (Bool-cases (ltb n 10)) [
  | inl e ↦ (48 + n % 10, acc, rw e, omega arith, omega arith)
  | inr e ↦ rw e (show_from_head f (n / 10) ((48 + n % 10) ∷ acc) (ground arith))
]

pub show_nat_head : (n : ℕ) → (c : ℕ) × (r : Text) × (show_nat n ≡ c ∷ r) × (48 ≤ c) × (c ≤ 57)
unfolding show_nat
show_nat_head n = show_from_head (suc n) n [] (omega arith)

parse_of_digits :
    (c : ℕ) (r : Text) (n : ℕ)
    → 48 ≤ c
    → c ≤ 57
    → read_from 0 (c ∷ r) ≡ some n
    → n ≤ max_int32
    → parse_int32 (c ∷ r) ≡ some (pos n)
unfolding parse_int32
parse_of_digits c r n lo hi e h = ground arith

-- In the int32 range, parsing gives the printed number back.
pub parse-show_nat : (n : ℕ) → n ≤ max_int32 → parse_int32 (show_nat n) ≡ some (pos n)
parse-show_nat n h =
    let (c, r, e, lo, hi) = show_nat_head n in
    rw e (parse_of_digits c r n lo hi (ap (read_from 0) (sym e) ∙ read-show_nat n) h)

-- A printed number is made of digits.
pub data IsDigits : Text → Type 0 where
  none_left : IsDigits []
  digit : {c : ℕ} {s : Text} → 48 ≤ c → c ≤ 57 → IsDigits s → IsDigits (c ∷ s)

show_from-IsDigits : (f n : ℕ) (acc : Text) → n < f → IsDigits acc → IsDigits (show_from f n acc)
unfolding show_from
show_from-IsDigits zero n acc h d = elim h [ ]
show_from-IsDigits (suc f) n acc h d =
    let d' : IsDigits ((48 + n % 10) ∷ acc) = digit (omega arith) (omega arith) d in
    elim (Bool-cases (ltb n 10)) [
      | inl e ↦ rw e d'
      | inr e ↦ rw e (show_from-IsDigits f (n / 10) ((48 + n % 10) ∷ acc) (ground arith) d')
    ]

pub show_nat-IsDigits : (n : ℕ) → IsDigits (show_nat n)
unfolding show_nat
show_nat-IsDigits n = show_from-IsDigits (suc n) n [] (omega arith) none_left

pub show_nat_injective : (m n : ℕ) → show_nat m ≡ show_nat n → m ≡ n
show_nat_injective m n h =
    let e : some m ≡ some n = sym (read-show_nat m) ∙ ap (read_from 0) h ∙ read-show_nat n in cc e

at_most_bound : (top : ℕ) (o : Option ℕ) (n : ℕ) → at_most top pos o ≡ some (pos n) → n ≤ top
at_most_bound top none n h = cc
at_most_bound top (some m) n h = ground arith

at_most-negate : (o : Option ℕ) (n : ℕ) → at_most 2147483648 negate o ≡ some (pos n) → n ≡ 0
at_most-negate none n h = cc
at_most-negate (some zero) n h = ground arith
at_most-negate (some (suc m)) n h = absurd (ground arith)

-- What is parsed fits an int32.
pub parse_int32_bound : (s : Text) (n : ℕ) → parse_int32 s ≡ some (pos n) → n ≤ max_int32
unfolding parse_int32
parse_int32_bound [] n h = cc
parse_int32_bound (c ∷ s) n h = elim (Bool-cases (c == b'-')) [
  | inl p ↦ let e : n ≡ 0 = at_most-negate (read_nat s) n (rw p at h) in omega arith
  | inr p ↦ elim (Bool-cases (c == b'+')) [
    | inl q ↦ at_most_bound max_int32 (read_nat s) n (rw (p, q) at h)
    | inr q ↦ at_most_bound max_int32 (read_nat (c ∷ s)) n (rw (p, q) at h)
  ]
]

length-show_from :
    (k f n : ℕ) (acc : Text)
    → n < f
    → n < 10 ^ suc k
    → length (show_from f n acc) ≤ suc k + length acc
unfolding show_from
length-show_from k zero n acc h b = elim h [ ]
length-show_from zero (suc f) n acc h b =
    let small : ltb n 10 ≡ true = ground arith in rw small (omega arith)
length-show_from (suc k) (suc f) n acc h b = elim (Bool-cases (ltb n 10)) [
  | inl e ↦ rw e (omega arith)
  | inr e ↦
      let big : 10 ≤ n = ground arith in
      let less : n / 10 < 10 ^ suc k = grind (arith, pow-suc) in
      rw e (omega (arith, length-show_from k f (n / 10) ((48 + n % 10) ∷ acc) (omega arith) less))
]

-- A number below 10 ^ (k + 1) has at most k + 1 digits.
pub length-show_nat : (k n : ℕ) → n < 10 ^ suc k → length (show_nat n) ≤ suc k
unfolding show_nat
length-show_nat k n b = omega (arith, length-show_from k (suc n) n [] (omega arith) b)
