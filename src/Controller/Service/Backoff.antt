-- ===== src/Controller/Service/Backoff.antt =====
-- internal/controller/agent_controller.go: backoffDelay. int64 products are written with their wrap.
use kontext.Prelude.{
  ℕ, zero, suc, ◌-◌, ◌*◌, ◌^◌, ◌≤◌, ◌<◌, ◌≡◌, refl, min, Option, none, some, arith, leb, leb→le, ap,
  ◌∙◌, Bool-cases, inl, inr, ℤ, pos, negsuc, pos_part, ltb_ℤ, leb_ℤ, ◌-ℤ◌, max_int32, if◌then◌else◌,
}
use native.Mathlib.Nat.{pow-suc, mul_assoc}
use kontext.Api.{Duration, BackoffSpec, nanos_per_second, wrap64}
use kontext.Schedule.Policies.{seconds, seconds_exact}

abbrev pub positive_or : ℕ → ℤ → ℤ
positive_or default v = if ltb_ℤ (pos 0) v then v else pos default

abbrev pub initial_seconds : Option BackoffSpec → ℤ
initial_seconds none = pos 5
initial_seconds (some b) = positive_or 5 b.initial_seconds

abbrev pub max_seconds : Option BackoffSpec → ℤ
max_seconds none = pos 60
max_seconds (some b) = positive_or 60 b.max_seconds

abbrev twice : Duration → Duration
twice (pos n) = wrap64 (n * 2)
twice (negsuc n) = negsuc (suc n * 2 - 1)

-- The loop, on the rounds that are left.
pub double : ℕ → Duration → Duration → Duration
double zero delay max_delay = delay
double (suc rounds) delay max_delay =
    let delay' = twice delay in
    let rest = double rounds delay' max_delay in
    if ltb_ℤ (max_delay -ℤ delay) delay
    then max_delay
    else if leb_ℤ max_delay delay'
    then max_delay
    else rest

abbrev attempt : ℤ → ℕ
attempt restarts = if ltb_ℤ restarts (pos 1) then 1 else pos_part restarts

pub backoff_delay : Option BackoffSpec → ℤ → Duration
backoff_delay backoff restarts =
    let delay = seconds (initial_seconds backoff) in
    let max_delay = seconds (max_seconds backoff) in
    if leb_ℤ max_delay delay then max_delay else double (attempt restarts - 1) delay max_delay

-- One round, in the range where nothing wraps: 2 ^ 62 nanoseconds.
double_round :
    (rounds d m : ℕ)
    → m ≤ 4611686018427387903
    → d < m
    → double (suc rounds) (pos d) (pos m)
      ≡ (if leb m (d * 2) then pos m else double rounds (pos (d * 2)) (pos m))
unfolding double ◌-ℤ◌ wrap64
double_round rounds d m big h = ground arith

two_pow : (r d m : ℕ) → m ≤ d * 2 → m ≤ d * 2 ^ suc r
two_pow zero d m h = omega arith
two_pow (suc r) d m h = omega (arith, two_pow r d m h, ap (λ (t : ℕ). d * t) (pow-suc 2 (suc r)))

double_exact :
    (rounds d m : ℕ)
    → m ≤ 4611686018427387903
    → d < m
    → double rounds (pos d) (pos m) ≡ pos (min (d * 2 ^ rounds) m)
double_exact zero d m big h = unfold double in ap pos (omega arith)
double_exact (suc rounds) d m big h = elim (Bool-cases (leb m (d * 2))) [
  | inl e ↦
      double_round rounds d m big h
      ∙ rw e (ap pos (omega (arith, two_pow rounds d m (leb→le m (d * 2) e))))
  | inr e ↦
      double_round rounds d m big h
      ∙ rw e (
          double_exact rounds (d * 2) m big (ground arith)
          ∙ ap (λ t. pos (min t m))
              (mul_assoc d 2 (2 ^ rounds)
                ∙ ap (λ (t : ℕ). d * t) (omega (arith, pow-suc 2 rounds))))
]

le-pow : (r d : ℕ) → d ≤ d * 2 ^ r
le-pow zero d = omega arith
le-pow (suc r) d = omega (arith, le-pow r d, ap (λ (t : ℕ). d * t) (pow-suc 2 r))

attempt_rounds : (k : ℕ) → attempt (pos k) - 1 ≡ k - 1
attempt_rounds zero = refl
attempt_rounds (suc k) = ground arith

from_delay :
    (k d m : ℕ)
    → m ≤ 4611686018427387903
    → (if leb_ℤ (pos m) (pos d) then pos m else double (attempt (pos k) - 1) (pos d) (pos m))
      ≡ pos (min (d * 2 ^ (k - 1)) m)
from_delay k d m big = elim (Bool-cases (leb_ℤ (pos m) (pos d))) [
  | inl e ↦ rw e (ap pos (let below : m ≤ d = ground arith in omega (arith, le-pow (k - 1) d)))
  | inr e ↦ rw (e, attempt_rounds k) (double_exact (k - 1) d m big (ground arith))
]

-- The recast backoff doubles from the initial delay with each restart up to the maximum, whatever
-- the configuration: with i and m the initial and maximal seconds, in the int32 range, it is
-- min(i * 2 ^ (restarts - 1), m) seconds, and i or m if it has not restarted; no product wraps.
pub backoff_delay_exact :
    (backoff : Option BackoffSpec) (i m restarts : ℕ)
    → initial_seconds backoff ≡ pos i
    → max_seconds backoff ≡ pos m
    → i ≤ max_int32
    → m ≤ max_int32
    → backoff_delay backoff (pos restarts)
      ≡ pos (min (i * nanos_per_second * 2 ^ (restarts - 1)) (m * nanos_per_second))
unfolding backoff_delay
backoff_delay_exact backoff i m restarts ei em hi hm =
    rw (ei, em, seconds_exact i (omega arith), seconds_exact m (omega arith))
      (from_delay restarts (i * nanos_per_second) (m * nanos_per_second) (omega arith))
