-- ===== src/Prelude/Strings.antt =====
-- Go strings: lists of bytes. A literal is written `text "..."`; the source's literals are ASCII.
use Prim.Native.Nat.{ℕ, zero, suc, ◌+◌, ◌-◌}
use Prim.Native.Char.{code}
use Prim.Native.String.{String}
use mathlib.Core.Path.{◌≡◌, refl}
use mathlib.Core.Bool.{Bool, true, false, ◌&&◌, ◌||◌}
use mathlib.Core.Option.{Option, none, some}
use mathlib.Core.List.{List, [], ◌∷◌, ◌++◌, map}
use native.Mathlib.Omega.{arith}
use kontext.Prelude.Tests.{ltb, leb, if◌then◌else◌}
use kontext.Prelude.Equality.{◌==◌, nat_eq, list_eq}

abbrev pub Text : Type 0
Text = List ℕ

abbrev pub text : String → Text
text String.[] = []
text (String.◌∷◌ c s) = code c ∷ text s

-- strings.HasPrefix with strings.TrimPrefix: the rest behind the prefix, if it is one.
unfoldable pub strip_prefix : Text → Text → Option Text
strip_prefix [] s = some s
strip_prefix (p ∷ ps) [] = none
strip_prefix (p ∷ ps) (c ∷ s) = if p == c then strip_prefix ps s else none

pub strip_prefix-append : (p s : Text) → strip_prefix p (p ++ s) ≡ some s
unfolding strip_prefix
strip_prefix-append [] s = refl
strip_prefix-append (c ∷ p) s = ground (arith, strip_prefix-append p s)

pub append-strip_prefix : (p s r : Text) → strip_prefix p s ≡ some r → s ≡ p ++ r
unfolding strip_prefix
append-strip_prefix [] s r h = ground arith
append-strip_prefix (c ∷ p) [] r h = cc
append-strip_prefix (c ∷ p) (d ∷ s) r h = ground (arith, append-strip_prefix p s r)

-- Go's `<` on strings, bytewise.
unfoldable pub text_ltb : Text → Text → Bool
text_ltb [] [] = false
text_ltb [] (d ∷ t) = true
text_ltb (c ∷ s) [] = false
text_ltb (c ∷ s) (d ∷ t) = ltb c d || (c == d && text_ltb s t)

-- sort.Strings on distinct strings.
unfoldable pub text_insert : Text → List Text → List Text
text_insert x [] = x ∷ []
text_insert x (y ∷ ys) = if text_ltb y x then y ∷ text_insert x ys else x ∷ y ∷ ys

unfoldable pub sort_texts : List Text → List Text
unfolding text_insert text_ltb
sort_texts [] = []
sort_texts (x ∷ xs) = text_insert x (sort_texts xs)

-- strings.Join.
unfoldable pub join : Text → List Text → Text
join sep [] = []
join sep (x ∷ []) = x
join sep (x ∷ y ∷ ys) = x ++ sep ++ join sep (y ∷ ys)

-- A set of strings (map[string]struct{}), and the keys of a map, as lists.
unfoldable pub text_mem : Text → List Text → Bool
text_mem x [] = false
text_mem x (y ∷ ys) = x == y || text_mem x ys

unfoldable pub set_add : Text → List Text → List Text
unfolding text_mem
set_add x xs = if text_mem x xs then xs else x ∷ xs

-- A map as an association list; a missing key is `none`.
unfoldable pub map_get {ℓ} : {V : Type ℓ} → Text → List (Text × V) → Option V
map_get k [] = none
map_get k ((j, v) ∷ m) = if j == k then some v else map_get k m

unfoldable pub map_set {ℓ} : {V : Type ℓ} → Text → V → List (Text × V) → List (Text × V)
map_set k v [] = (k, v) ∷ []
map_set k v ((j, w) ∷ m) = if j == k then (k, v) ∷ m else (j, w) ∷ map_set k v m

abbrev pub keys {ℓ} : {V : Type ℓ} → List (Text × V) → List Text
keys [] = []
keys ((k, v) ∷ m) = k ∷ keys m

-- The spaces of ASCII, as in unicode.IsSpace.
unfoldable pub is_space : ℕ → Bool
is_space c = c == 32 || (leb 9 c && leb c 13)

-- The other runes of unicode.IsSpace, in UTF-8: U+0085 and U+00A0; U+1680, U+2000 to U+200A, U+2028,
-- U+2029, U+202F, U+205F and U+3000.
abbrev is_space2 : ℕ → ℕ → Bool
is_space2 c d = c == 194 && (d == 133 || d == 160)

abbrev is_space3 : ℕ → ℕ → ℕ → Bool
is_space3 c d e =
    (c == 225 && d == 154 && e == 128)
    || (c == 226 && d == 128 && ((leb 128 e && leb e 138) || e == 168 || e == 169 || e == 175))
    || (c == 226 && d == 129 && e == 159)
    || (c == 227 && d == 128 && e == 128)

-- How many bytes the space takes with which a text begins; 0 without one.
abbrev wide_width : ℕ → Text → ℕ
wide_width c [] = 0
wide_width c (d ∷ []) = if is_space2 c d then 2 else 0
wide_width c (d ∷ e ∷ s) = if is_space2 c d then 2 else if is_space3 c d e then 3 else 0

abbrev space_width : ℕ → Text → ℕ
space_width c s = if is_space c then 1 else wide_width c s

-- Behind a number of bytes that belong to a space, what is left of its first rune that is none.
unfoldable pub trim_left : ℕ → Text → Text
trim_left skipped [] = []
trim_left (suc skipped) (c ∷ s) = trim_left skipped s
trim_left zero (c ∷ s) =
    let width = space_width c s in
    let rest = trim_left (width - 1) s in if width == 0 then c ∷ s else rest

-- Whether a text is one space.
abbrev is_space_rune : Text → Bool
is_space_rune [] = false
is_space_rune (c ∷ []) = is_space c
is_space_rune (c ∷ d ∷ []) = is_space2 c d
is_space_rune (c ∷ d ∷ e ∷ []) = is_space3 c d e
is_space_rune (c ∷ d ∷ e ∷ f ∷ s) = false

abbrev pub keep_right : ℕ → Text → Text
keep_right c t = if is_space_rune (c ∷ t) then [] else c ∷ t

-- Where what is left behind a byte makes one space with it, both are dropped.
unfoldable pub trim_right : Text → Text
trim_right [] = []
trim_right (c ∷ s) = keep_right c (trim_right s)

-- strings.TrimSpace and bytes.TrimSpace.
unfoldable pub trim_space : Text → Text
unfolding trim_left trim_right is_space
trim_space s = trim_right (trim_left 0 s)

unfoldable pub lower : ℕ → ℕ
lower c = if leb b'A' c && leb c b'Z' then c + 32 else c

unfoldable pub upper : ℕ → ℕ
upper c = if leb b'a' c && leb c b'z' then c - 32 else c

-- strings.ToLower and strings.ToUpper on ASCII text.
unfoldable pub to_lower : Text → Text
unfolding lower
to_lower = map lower

unfoldable pub to_upper : Text → Text
unfolding upper
to_upper = map upper
