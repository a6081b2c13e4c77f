-- ===== src/Schedule/Adjusting.antt =====
-- How a period is adjusted: the invariant of the schedule, when the assertions hold, and where the
-- new sync point lies. Code: src/clique/schedule.cpp.

use sleep_sync_agent.Base.{
  arith, failed, if◌then◌else◌, ltb, ok, refl, ℕ, ◌%◌, ◌*◌, ◌+◌, ◌<◌, ◌^◌, ◌≡◌, ◌≤◌, ◌⊎◌,
}
use sleep_sync_agent.Params.{normal_sync_period_duration}
use sleep_sync_agent.Schedule.{
  Schedule, adjust, adjust_by_clique_history_offset, adjust_by_sync_msg,
  adjust_with_random_added_time, init, roll_period_forward,
}

-- Far from the end of the 64-bit clock.
abbrev pub clock_limit : ℕ
clock_limit = 2 ^ 63

pub record IsScheduled (s : Schedule) : Type 0 where
  pub normal :
      s.unadjusted_end_time_of_sync_period
      ≡ s.start_time_of_sync_period + normal_sync_period_duration
  pub not_shortened : s.unadjusted_end_time_of_sync_period ≤ s.end_time_of_sync_period
  pub not_too_long :
      s.end_time_of_sync_period ≤ s.start_time_of_sync_period + 2 * normal_sync_period_duration

-- Rolling starts the next period at the end of the last one.
pub roll_period_forward-IsScheduled :
    (s : Schedule) → s.end_time_of_sync_period < clock_limit → IsScheduled (roll_period_forward s)
unfolding roll_period_forward
roll_period_forward-IsScheduled s h = omega arith

-- `adjust` succeeds exactly on an end that leaves the period of one to two normal durations, and
-- then keeps the invariant with that end and the same start.
pub adjust_iff :
    (s : Schedule) (new_end : ℕ)
    → IsScheduled s
    → s.start_time_of_sync_period < clock_limit
    → new_end < 2 * clock_limit
    → ((s.unadjusted_end_time_of_sync_period ≤ new_end)
        × (new_end ≤ s.start_time_of_sync_period + 2 * normal_sync_period_duration)
        × (adjust s new_end ≡ ok (record s { end_time_of_sync_period = new_end }))
        × IsScheduled (record s { end_time_of_sync_period = new_end }))
      ⊎ (((new_end < s.unadjusted_end_time_of_sync_period)
            ⊎ (s.start_time_of_sync_period + 2 * normal_sync_period_duration < new_end))
          × (adjust s new_end ≡ failed))
unfolding adjust
adjust_iff s new_end v h k = ground arith

-- Where a heard sync puts the end of the period: at its event, or one normal period after it.
abbrev pub sync_end : Schedule → ℕ → ℕ → ℕ
sync_end s toa delta =
    if ltb (toa + delta) s.end_time_of_sync_period
    then toa + delta + normal_sync_period_duration
    else toa + delta

module _ (s : Schedule) (toa delta : ℕ) (v : IsScheduled s) where
  -- A sync that is heard within the normal part of a period that was not extended, with an offset
  -- in range: no assertion fails, only the end changes, to one that is in phase with the event of
  -- the message, no earlier than the old end and at most two normal periods from the start.
  pub adjust_by_sync_msg_lem :
      s.end_time_of_sync_period ≡ s.unadjusted_end_time_of_sync_period
      → s.start_time_of_sync_period ≤ toa
      → toa ≤ s.end_time_of_sync_period
      → delta ≤ normal_sync_period_duration
      → toa < clock_limit
      → (adjust_by_sync_msg s toa delta
          ≡ ok (record s { end_time_of_sync_period = sync_end s toa delta }))
        × IsScheduled (record s { end_time_of_sync_period = sync_end s toa delta })
        × (sync_end s toa delta % normal_sync_period_duration
            ≡ (toa + delta) % normal_sync_period_duration)
        × (s.end_time_of_sync_period ≤ sync_end s toa delta)
  unfolding adjust_by_sync_msg
  adjust_by_sync_msg_lem = λ fresh early late small near. ground arith

  -- A second sync in a period that the first one has extended fails the assertion of
  -- `adjustedSyncPeriodEndTimeFromMsg` whenever its event lies after the normal end of the period
  -- and before the extended one.
  pub adjust_by_sync_msg-failed :
      s.unadjusted_end_time_of_sync_period < toa + delta
      → toa + delta < s.end_time_of_sync_period
      → s.start_time_of_sync_period < clock_limit
      → adjust_by_sync_msg s toa delta ≡ failed
  unfolding adjust_by_sync_msg
  adjust_by_sync_msg-failed = λ after before near. ground arith

-- A random extension never fails an assertion, and keeps the invariant.
pub adjust_with_random_added_time_lem :
    (s : Schedule) (random_offset : ℕ)
    → IsScheduled s
    → random_offset ≤ normal_sync_period_duration
    → s.start_time_of_sync_period < clock_limit
    → (t : Schedule) × (adjust_with_random_added_time s random_offset ≡ ok t)
      × IsScheduled t
      × (t.start_time_of_sync_period ≡ s.start_time_of_sync_period)
unfolding adjust_with_random_added_time
adjust_with_random_added_time_lem s random_offset v small near = (
  record s {
    end_time_of_sync_period =
        s.start_time_of_sync_period + normal_sync_period_duration + random_offset;
  },
  ground arith,
  ground arith,
  refl,
)

-- Reverting to a former clique before the normal end of the period fails the assertion that the
-- end never moves backward, since the offset of the history is added to the time of the call.
pub adjust_by_clique_history_offset-failed :
    (s : Schedule) (now offset : ℕ)
    → now + offset < s.unadjusted_end_time_of_sync_period
    → s.unadjusted_end_time_of_sync_period < clock_limit
    → adjust_by_clique_history_offset s now offset ≡ failed
unfolding adjust_by_clique_history_offset
adjust_by_clique_history_offset-failed s now offset h near = ground arith

-- `Schedule::init` starts its period at the old end, whatever the clock says.
pub init-ignores_now :
    (s : Schedule) (now : ℕ) → (init s now).start_time_of_sync_period ≡ s.end_time_of_sync_period
unfolding init
init-ignores_now s now = refl
