-- ===== src/Controller/Service/Suffix.antt =====
-- internal/controller/agent_controller.go: serviceRunSuffix.
use kontext.Prelude.{
  ℕ, ◌≤◌, ◌≡◌, ◌↔◌, ap, ◌∙◌, inl, inr, true, ◌++◌, Option, none, some, Text, text, arith, ◌==◌,
  nat_eq, list_eq, beq_refl, eq_of_beq, Option-cases, is_some, pos, negsuc, pos_part, show_int,
  max_int32, if◌then◌else◌,
}
use kontext.RunFactory.Resolve.{suffix_value, is_reserved_service_run_name}
use kontext.RunFactory.Resolve.Names.{standing_name, suffix_value_sound, suffix_value-standing_name}

-- `none` where the source returns false.
unfoldable pub service_run_suffix : Text → Text → Option ℕ
service_run_suffix agent_name run_name = elim (suffix_value agent_name run_name) [
  | none ↦ none
  | some v ↦ if run_name == agent_name ++ text "-" ++ show_int v then some (pos_part v) else none
]

-- serviceRunSuffix reads exactly the names that the reconciler mints, "<agent>-<n>" with n from 1
-- to the largest int32, and gives their n.
pub service_run_suffix_iff :
    (a r : Text) (n : ℕ)
    → (service_run_suffix a r ≡ some n) ↔ ((1 ≤ n) × (n ≤ max_int32) × (r ≡ standing_name a n))
unfolding service_run_suffix show_int
service_run_suffix_iff a r n = (sound, complete)
  where
    sound : service_run_suffix a r ≡ some n → (1 ≤ n) × (n ≤ max_int32) × (r ≡ standing_name a n)
    sound h = elim (Option-cases (suffix_value a r)) [
      | inl e ↦ absurd (ground arith)
      | inr (negsuc v, e) ↦
          let (m, p, _, _) = suffix_value_sound a r (negsuc v) e in absurd (ground arith)
      | inr (pos v, e) ↦
          let (m, p, lo, hi) = suffix_value_sound a r (pos v) e in
          let same : v ≡ n = ground arith in
          (
            ground arith,
            ground arith,
            eq_of_beq r (standing_name a v) (ground arith) ∙ ap (standing_name a) same,
          )
    ]

    complete : (1 ≤ n) × (n ≤ max_int32) × (r ≡ standing_name a n) → service_run_suffix a r ≡ some n
    complete (lo, hi, e) =
        let found : suffix_value a r ≡ some (pos n) = rw e (suffix_value-standing_name a n lo hi) in
        let same : (r == standing_name a n) ≡ true = rw e (beq_refl (standing_name a n)) in
        ground (arith, found, same)

-- The admission webhook reserves exactly the names that the reconciler reads as standing runs.
pub is_reserved-service_run_suffix :
    (a r : Text) → is_reserved_service_run_name a r ≡ is_some (service_run_suffix a r)
unfolding service_run_suffix is_reserved_service_run_name
is_reserved-service_run_suffix a r = elim (Option-cases (suffix_value a r)) [
  | inl e ↦ ground arith
  | inr (v, e) ↦ ground arith
]
