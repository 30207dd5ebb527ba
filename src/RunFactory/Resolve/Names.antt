-- ===== src/RunFactory/Resolve/Names.antt =====
-- The names that are reserved for the standing runs of a Service Agent.
use kontext.Prelude.{
  ℕ, ◌≤◌, ◌≡◌, ◌↔◌, inl, inr, true, ◌++◌, some, Text, text, arith, ◌==◌, nat_eq, list_eq, eq_of_beq,
  beq_refl, Option-cases, ℤ, pos, negsuc, strip_prefix, strip_prefix-append, parse_int32,
  parse-show_nat, parse_int32_bound, max_int32, show_int, show_nat,
}
use kontext.RunFactory.Resolve.{positive, suffix_value, is_reserved_service_run_name}

-- The name of the n-th standing run.
abbrev pub standing_name : Text → ℕ → Text
standing_name agent_name n = agent_name ++ text "-" ++ show_nat n

pub positive_sound :
    (s : Text) (v : ℤ)
    → positive (parse_int32 s) ≡ some v
    → (n : ℕ) × (v ≡ pos n) × (1 ≤ n) × (n ≤ max_int32)
positive_sound s v h = elim (Option-cases (parse_int32 s)) [
  | inl e ↦ absurd (ground arith)
  | inr (negsuc n, e) ↦ absurd (ground arith)
  | inr (pos n, e) ↦ (n, ground arith, ground arith, parse_int32_bound s n e)
]

pub suffix_value_sound :
    (agent_name run_name : Text) (v : ℤ)
    → suffix_value agent_name run_name ≡ some v
    → (n : ℕ) × (v ≡ pos n) × (1 ≤ n) × (n ≤ max_int32)
suffix_value_sound a r v h = elim (Option-cases (strip_prefix (a ++ text "-") r)) [
  | inl e ↦ absurd (ground arith)
  | inr (s, e) ↦ positive_sound s v (ground arith)
]

pub suffix_value-standing_name :
    (a : Text) (n : ℕ) → 1 ≤ n → n ≤ max_int32 → suffix_value a (standing_name a n) ≡ some (pos n)
suffix_value-standing_name a n lo hi =
    let e : strip_prefix (a ++ text "-") (standing_name a n) ≡ some (show_nat n) =
      strip_prefix-append (a ++ text "-") (show_nat n) in
    ground (arith, e, parse-show_nat n hi)

-- A run name is reserved exactly if it is "<agent>-<n>" with n a positive int32, printed plainly.
pub is_reserved_service_run_name_iff :
    (a r : Text)
    → (is_reserved_service_run_name a r ≡ true)
      ↔ ((n : ℕ) × (1 ≤ n) × (n ≤ max_int32) × (r ≡ standing_name a n))
unfolding is_reserved_service_run_name show_int
is_reserved_service_run_name_iff a r = (sound, complete)
  where
    sound :
        is_reserved_service_run_name a r ≡ true
        → (n : ℕ) × (1 ≤ n) × (n ≤ max_int32) × (r ≡ standing_name a n)
    sound h = elim (Option-cases (suffix_value a r)) [
      | inl e ↦ absurd (ground arith)
      | inr (negsuc v, e) ↦
          let (n, p, _, _) = suffix_value_sound a r (negsuc v) e in absurd (ground arith)
      | inr (pos v, e) ↦
          let (n, p, lo, hi) = suffix_value_sound a r (pos v) e in
          (v, ground arith, ground arith, eq_of_beq r (standing_name a v) (ground arith))
    ]

    complete :
        (n : ℕ) × (1 ≤ n) × (n ≤ max_int32) × (r ≡ standing_name a n)
        → is_reserved_service_run_name a r ≡ true
    complete (n, lo, hi, e) =
        let found : suffix_value a r ≡ some (pos n) = rw e (suffix_value-standing_name a n lo hi) in
        let same : (r == standing_name a n) ≡ true = rw e (beq_refl (standing_name a n)) in
        ground (arith, found, same)
