-- ===== src/Api/Meta.antt =====
-- The part of Kubernetes object metadata that the controllers read and write, and time.
use kontext.Prelude.{
  ℕ, ◌-◌, ◌%◌, Bool, List, [], Option, Text, ℤ, ltb, leb, ◌==◌, nat_eq, sub_ℕ, pos, negsuc,
  if◌then◌else◌,
}

-- time.Time and metav1.Time: nanoseconds from the start of year 1, the zero Time being 0. Monotonic
-- readings and locations play no part.
abbrev pub Time : Type 0
Time = ℕ

-- time.Duration: nanoseconds, an int64.
abbrev pub Duration : Type 0
Duration = ℤ

abbrev pub nanos_per_second : ℕ
nanos_per_second = 1000000000

abbrev pub max_int64 : ℕ
max_int64 = 9223372036854775807

-- t.IsZero, t.After(u), t.Before(u), t.Equal(u).
abbrev pub is_zero : Time → Bool
is_zero t = t == 0

abbrev pub after : Time → Time → Bool
after t u = ltb u t

abbrev pub before : Time → Time → Bool
before t u = ltb t u

-- A difference out of the int64 range is cut to the nearest end of it.
abbrev pub saturate : ℤ → Duration
saturate (pos n) = if leb n max_int64 then pos n else pos max_int64
saturate (negsuc n) = if leb n max_int64 then negsuc n else negsuc max_int64

-- t.Sub(u).
unfoldable pub sub_time : Time → Time → Duration
sub_time t u = saturate (sub_ℕ t u)

-- An int64 in two's complement, from a number that is not negative.
unfoldable pub wrap64 : ℕ → ℤ
wrap64 n =
    let m = n % 18446744073709551616 in
    if leb m max_int64 then pos m else negsuc (18446744073709551615 - m)

-- What fmt.Sprintf is given: a format, and the arguments of its verbs as they print under %s or %d.
pub record Message : Type 0 where
  pub format : Text
  pub args : List Text

abbrev pub plain : Text → Message
plain t = record { format = t; args = [] }

abbrev pub sprintf : Text → List Text → Message
sprintf f xs = record { format = f; args = xs }

-- The status of a condition.
pub data ConditionStatus : Type 0 where
  condition_true condition_false : ConditionStatus

-- metav1.Condition, with the generation that the controller stamps.
pub record Condition : Type 0 where
  pub type : Text
  pub status : ConditionStatus
  pub reason : Text
  pub message : Message
  pub observed_generation : ℕ
  pub last_transition_time : Time

-- metav1.OwnerReference of the controlling owner.
pub record OwnerReference : Type 0 where
  pub api_version : Text
  pub kind : Text
  pub name : Text
  pub uid : Text

-- metav1.TypeMeta.
pub record TypeMeta : Type 0 where
  pub kind : Text
  pub api_version : Text

pub record ObjectMeta : Type 0 where
  pub name : Text
  pub namespace : Text
  pub uid : Text
  pub generation : ℕ
  pub creation_timestamp : Time
  pub labels : List (Text × Text)
  pub annotations : List (Text × Text)
  pub finalizers : List Text
  pub controller : Option OwnerReference
