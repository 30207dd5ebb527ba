-- ===== src/Schedule/Tests.antt =====
-- Runs of internal/scheduler and internal/scheduledrun.
use kontext.Prelude.{
  ℕ, ◌+◌, ◌-◌, ◌/◌, ◌%◌, ◌<◌, ◌≡◌, refl, ap, ◌∙◌, ◌⊎◌, none, some, text, Text, pos, show_int,
  read_from, sym, arith, ◌==◌, nat_eq, read-show_nat, show_nat_head, read_nat, show_nat,
}
use kontext.Api.{Time, nanos_per_second}
use kontext.Api.{succeeded}
use kontext.Fixtures.{codec, run_of}
use kontext.Schedule.Slots.{latest_due, IsLatest, latest_due-IsLatest, latest_due_stuck}
use kontext.Schedule.RunNames.{unix, trim_dashes, run_name, run_name_injective}
use kontext.Schedule.Labels.{IsDnsLabel, run_name-IsDnsLabel}
use kontext.PodBuilder.Labels.{IsHash}
use kontext.Schedule.Metadata.{
  ReadsBack, set_metadata, slot, sequence, represents_slot, slot-set_metadata,
}

latest_due_example :
    ((35 < 5) × (latest_due 37 (λ t. t + 10) 5 35 ≡ some (0, 5)))
    ⊎ ((d : Time) × (n : Time) × (latest_due 37 (λ t. t + 10) 5 35 ≡ some (d, n))
        × IsLatest (λ t. t + 10) 5 35 d n)
latest_due_example = latest_due-IsLatest (λ t. t + 10) 5 35 (λ t h. omega arith)

latest_due_stuck_example : latest_due 1000 (λ t. 0) 5 35 ≡ none
latest_due_stuck_example = latest_due_stuck 1000 (λ t. 0) 5 35 (λ t. refl) (omega arith)

five : unix 62135596805000000000 ≡ pos 5
unfolding unix
five = refl

abbrev digest : Text → Text
digest s = text "0123abcd"

digest-IsHash : IsHash digest
digest-IsHash = record {
  size = λ s. refl;
  hex = λ s. (refl, (refl, (refl, (refl, (refl, (refl, (refl, (refl, tt))))))));
  last = λ s. refl;
}

run_name-IsDnsLabel_example : IsDnsLabel (run_name digest (text "a-b") 62135596805000000000)
run_name-IsDnsLabel_example =
    run_name-IsDnsLabel digest (text "a-b") 62135596805000000000 5 (refl, (refl, (refl, tt)))
      (b'a', text "-b", refl, refl) digest-IsHash five (omega arith)

same_second :
    run_name (λ s. s) (text "a") 62135596805000000000
    ≡ run_name (λ s. s) (text "a") 62135596805500000000
unfolding run_name unix trim_dashes show_nat show_int
same_second = refl

five_and_a_half : unix 62135596805500000000 ≡ pos 5
unfolding unix
five_and_a_half = refl

run_name_injective_example : ◌≡◌ {A = ℕ} 5 5
run_name_injective_example =
    run_name_injective (λ s. s) (text "a") (text "a") 62135596805000000000 62135596805500000000 5 5
      five five_and_a_half same_second

read_nat-show_nat : (n : ℕ) → read_nat (show_nat n) ≡ some n
unfolding read_nat
read_nat-show_nat n =
    let (c, r, e, lo, hi) = show_nat_head n in rw e (ap (read_from 0) (sym e) ∙ read-show_nat n)

codec-ReadsBack : (t : Time) → ReadsBack codec t
codec-ReadsBack t = rw (read_nat-show_nat (t / nanos_per_second)) (ap some (omega arith))

set_metadata_example :
    (slot codec (set_metadata codec (run_of (text "a-60") succeeded) 60500000000 7)
      ≡ some (60500000000 - 60500000000 % nanos_per_second))
    × (sequence (set_metadata codec (run_of (text "a-60") succeeded) 60500000000 7) ≡ some 7)
    × ((u : Time)
        → represents_slot codec
            (set_metadata codec (run_of (text "a-60") succeeded) 60500000000 7)
            u
          ≡ (60500000000 - 60500000000 % nanos_per_second == u))
set_metadata_example =
    slot-set_metadata codec (run_of (text "a-60") succeeded) 60500000000 7
      (codec-ReadsBack 60500000000) (omega arith) (omega arith)
