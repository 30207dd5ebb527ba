-- ===== src/RunFactory/Goal/Template.antt =====
-- A goal template as a list of tokens: the independent description of what interpolateGoal reads.
use kontext.Prelude.{
  ℕ, ◌≡◌, Bool, true, false, ◌||◌, List, [], ◌∷◌, ◌++◌, Option, none, some, Text, ◌==◌, nat_eq,
  list_eq, is_some, strip_prefix, map_get,
}
use kontext.RunFactory.Goal.{Parameters, valid_parameter_name, escaped_open, placeholder_open}

pub data Token : Type 0 where
  literal : ℕ → Token
  escape hole : Text → Token

abbrev pub print_token : Token → Text → Text
print_token (literal c) t = c ∷ t
print_token (escape n) t = escaped_open ++ n ++ b'}' ∷ t
print_token (hole n) t = placeholder_open ++ n ++ b'}' ∷ t

unfoldable pub print : List Token → Text
print [] = []
print (k ∷ ts) = print_token k (print ts)

-- Names are identifiers, and no literal byte opens a placeholder with what follows it.
abbrev pub WellFormedAt : Token → Text → Type 0
WellFormedAt (literal c) t =
    (strip_prefix escaped_open (c ∷ t) ≡ none) × (strip_prefix placeholder_open (c ∷ t) ≡ none)
WellFormedAt (escape n) t = valid_parameter_name n ≡ true
WellFormedAt (hole n) t = valid_parameter_name n ≡ true

abbrev pub WellFormed : List Token → Type 0
WellFormed [] = Unit
WellFormed (k ∷ ts) = WellFormedAt k (print ts) × WellFormed ts

abbrev pub value_or_empty : Option Text → Text
value_or_empty none = []
value_or_empty (some v) = v

abbrev pub token_text : Parameters → Token → Text
token_text ps (literal c) = c ∷ []
token_text ps (escape n) = placeholder_open ++ n ++ b'}' ∷ []
token_text ps (hole n) = value_or_empty (map_get n ps)

-- What a template stands for.
unfoldable pub meaning : Parameters → List Token → Text
meaning ps [] = []
meaning ps (k ∷ ts) = token_text ps k ++ meaning ps ts

abbrev pub is_bound : Parameters → Token → Bool
is_bound ps (hole n) = is_some (map_get n ps)
is_bound ps _ = true

-- Every placeholder has a parameter.
abbrev pub Bound : Parameters → List Token → Type 0
Bound ps [] = Unit
Bound ps (k ∷ ts) = (is_bound ps k ≡ true) × Bound ps ts

abbrev pub is_hole : Text → Token → Bool
is_hole name (hole n) = name == n
is_hole name _ = false

unfoldable pub mentions : Text → List Token → Bool
mentions name [] = false
mentions name (k ∷ ts) = is_hole name k || mentions name ts

-- Every parameter has a placeholder.
abbrev pub AllUsed : List Text → List Token → Type 0
AllUsed [] ts = Unit
AllUsed (k ∷ ks) ts = (mentions k ts ≡ true) × AllUsed ks ts
