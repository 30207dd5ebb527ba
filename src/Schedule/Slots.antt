-- ===== src/Schedule/Slots.antt =====
-- internal/scheduler/scheduler.go: LatestDue. The loop has fuel; `none` means that it ran out.
use kontext.Prelude.{
  ℕ, zero, suc, ◌+◌, ◌-◌, ◌≤◌, ◌<◌, ◌≡◌, refl, inl, inr, ◌⊎◌, not, Option, none, some, arith,
  Bool-cases, if◌then◌else◌,
}
use kontext.Api.{Time, after}
use kontext.Schedule.Policies.{CronSchedule}

-- for !next.After(now) { due = next; next = schedule.Next(next) }
unfoldable pub advance : ℕ → CronSchedule → Time → Time → Time → Option (Time × Time)
advance zero schedule now due next = none
advance (suc fuel) schedule now due next =
    let rest = advance fuel schedule now next (schedule next) in
    if not (after next now) then rest else some (due, next)

-- The due slot, the zero Time if none is due, and the next one.
unfoldable pub latest_due : ℕ → CronSchedule → Time → Time → Option (Time × Time)
latest_due fuel schedule first_due now =
    if after first_due now
    then some (0, first_due)
    else advance fuel schedule now first_due (schedule first_due)

-- The slots of a schedule from a first one on.
pub data Slot (schedule : CronSchedule) (first : Time) : Time → Type 0 where
  this : Slot schedule first first
  later : {t : Time} → Slot schedule first t → Slot schedule first (schedule t)

-- The latest slot that is not after now.
pub record IsLatest (schedule : CronSchedule) (first now due next : Time) : Type 0 where
  pub slot : Slot schedule first due
  pub reached : due ≤ now
  pub follows : next ≡ schedule due
  pub future : now < next

advance-IsLatest :
    (fuel : ℕ) (schedule : CronSchedule) (first now due next : Time)
    → ((t : Time) → t ≤ now → t < schedule t)
    → now + 1 - next < fuel
    → due ≤ now
    → Slot schedule first due
    → next ≡ schedule due
    → (d : Time) × (n : Time) × (advance fuel schedule now due next ≡ some (d, n))
      × IsLatest schedule first now d n
unfolding advance
advance-IsLatest zero schedule first now due next mono fuel_ok reached s e = elim fuel_ok [ ]
advance-IsLatest (suc fuel) schedule first now due next mono fuel_ok reached s e =
    elim (Bool-cases (after next now)) [
      | inl a ↦ (
        due,
        next,
        rw a,
        record { slot = s; reached = reached; follows = e; future = ground arith },
      )
      | inr a ↦
          let here : next ≤ now = ground arith in
          let grows : next < schedule next = mono next here in
          rw a (
            advance-IsLatest fuel schedule first now next (schedule next) mono (omega arith) here
              (rw e (later s)) refl)
    ]

-- With one unit of fuel for each nanosecond up to now, LatestDue returns on every schedule whose
-- Next is later than any time up to now: the zero Time with the first slot if that is in the future,
-- and otherwise the latest slot at or before now, with the slot that follows it, which is after now.
pub latest_due-IsLatest :
    (schedule : CronSchedule) (first now : Time)
    → ((t : Time) → t ≤ now → t < schedule t)
    → ((now < first) × (latest_due (now + 2) schedule first now ≡ some (0, first)))
      ⊎ ((d : Time) × (n : Time) × (latest_due (now + 2) schedule first now ≡ some (d, n))
          × IsLatest schedule first now d n)
unfolding latest_due
latest_due-IsLatest schedule first now mono = elim (Bool-cases (after first now)) [
  | inl a ↦ inl (ground arith, rw a)
  | inr a ↦ rw a (
      inr (
        advance-IsLatest (now + 2) schedule first now first (schedule first) mono (omega arith)
          (ground arith) this refl))
]

advance_stuck :
    (fuel : ℕ) (schedule : CronSchedule) (now due : Time)
    → ((t : Time) → schedule t ≡ 0)
    → advance fuel schedule now due 0 ≡ none
unfolding advance
advance_stuck zero schedule now due z = refl
advance_stuck (suc fuel) schedule now due z =
    rw (z 0) (ground (arith, advance_stuck fuel schedule now 0 z))

-- On a schedule that never fires, for which the cron library's Next is the zero Time, LatestDue does
-- not return once the first slot has come, whatever the fuel.
pub latest_due_stuck :
    (fuel : ℕ) (schedule : CronSchedule) (first now : Time)
    → ((t : Time) → schedule t ≡ 0)
    → first ≤ now
    → latest_due fuel schedule first now ≡ none
unfolding latest_due
latest_due_stuck fuel schedule first now z h =
    rw (z first) (ground (arith, advance_stuck fuel schedule now first z))
