-- ===== src/Schedule.antt =====
-- src/clique/schedule.cpp and src/clique/schedule.h: the sync period of a unit, on its LongClock.
-- Readings of the clock (`now`), of Radio::timeOfArrival() (`toa`) and of Random are arguments.
pub mod SyncOffset
pub mod Phase
pub mod Adjusting
pub mod Heeding
use sleep_sync_agent.Base.{
  Checked, check, if◌then◌else◌, leb, ltb, ok, sub64, u64, ℕ, ◌*◌, ◌+◌, ◌>>=◌, ◌>>◌,
}
use sleep_sync_agent.Network.SendRepeater.{start}
use sleep_sync_agent.Params.{normal_sync_period_duration}
use sleep_sync_agent.TimeMath.{TimeMath}

-- The file-level variables. Times are LongTime, which is a uint64_t.
pub record Schedule : Type 0 where
  pub start_time_of_sync_period : ℕ
  pub unadjusted_end_time_of_sync_period : ℕ
  pub end_time_of_sync_period : ℕ

unfoldable pub roll_period_forward : Schedule → Schedule
roll_period_forward s =
    let start = s.end_time_of_sync_period in
    let end = u64 (start + normal_sync_period_duration) in
    record {
      start_time_of_sync_period = start;
      unadjusted_end_time_of_sync_period = end;
      end_time_of_sync_period = end;
    }

-- The source sets the start to now and then rolls.
pub init : Schedule → ℕ → Schedule
unfolding roll_period_forward
init s now = roll_period_forward (record s { start_time_of_sync_period = now })

unfoldable pub set_end_time_of_sync_period_to_now : Schedule → ℕ → Schedule
set_end_time_of_sync_period_to_now s now = record s { end_time_of_sync_period = now }

abbrev pub time_of_next_sync_point : Schedule → ℕ
time_of_next_sync_point s = s.end_time_of_sync_period

abbrev pub time_of_unadjusted_next_sync_point : Schedule → ℕ
time_of_unadjusted_next_sync_point s = s.unadjusted_end_time_of_sync_period

-- `adjust`: the new end, with the two assertions on it.
unfoldable pub adjust : Schedule → ℕ → Checked Schedule
adjust s new_end_time = do
  let t = record s { end_time_of_sync_period = new_end_time }
  check (leb t.unadjusted_end_time_of_sync_period t.end_time_of_sync_period)
  check (
      leb (sub64 t.end_time_of_sync_period t.start_time_of_sync_period)
        (2 * normal_sync_period_duration))
  ok t

-- `delta` is the offset of the message, to the sender's next sync point.
unfoldable pub adjusted_event_time_from_msg : ℕ → ℕ → ℕ
adjusted_event_time_from_msg toa delta = u64 (toa + delta)

unfoldable pub adjusted_sync_period_end_time_from_msg : Schedule → ℕ → ℕ → Checked ℕ
unfolding adjusted_event_time_from_msg
adjusted_sync_period_end_time_from_msg s toa delta = do
  let event = adjusted_event_time_from_msg toa delta
  let result =
      if ltb event (time_of_next_sync_point s)
      then u64 (event + normal_sync_period_duration)
      else event
  check (leb (sub64 result s.start_time_of_sync_period) (2 * normal_sync_period_duration))
  ok result

unfoldable pub adjust_by_sync_msg : Schedule → ℕ → ℕ → Checked Schedule
unfolding adjusted_sync_period_end_time_from_msg adjust
adjust_by_sync_msg s toa delta = do
  new_end_time ← adjusted_sync_period_end_time_from_msg s toa delta
  adjust s new_end_time

-- `random_offset` is Random::unsignedInt(0, NormalSyncPeriodDuration).
unfoldable pub adjust_with_random_added_time : Schedule → ℕ → Checked Schedule
unfolding adjust
adjust_with_random_added_time s random_offset =
    adjust s (u64 (s.start_time_of_sync_period + normal_sync_period_duration + random_offset))

abbrev pub adjusted_end_time_from_clique_history_offset : ℕ → ℕ → ℕ
adjusted_end_time_from_clique_history_offset now offset = u64 (now + offset)

unfoldable pub adjust_by_clique_history_offset : Schedule → ℕ → ℕ → Checked Schedule
unfolding adjust
adjust_by_clique_history_offset s now offset =
    adjust s (adjusted_end_time_from_clique_history_offset now offset)

unfoldable pub delta_now_to_next_sync_point : TimeMath → Schedule → ℕ → ℕ
delta_now_to_next_sync_point lib s now = lib.clamped_time_difference (time_of_next_sync_point s) now

unfoldable pub delta_now_to_next_unadjusted_sync_point : TimeMath → Schedule → ℕ → ℕ
delta_now_to_next_unadjusted_sync_point lib s now =
    lib.clamped_time_difference (time_of_unadjusted_next_sync_point s) now

unfoldable pub delta_past_sync_point_to_now : TimeMath → Schedule → ℕ → ℕ
delta_past_sync_point_to_now lib s now = lib.clamped_time_difference now s.start_time_of_sync_period

abbrev pub latest_time_to_end_slots : Schedule → ℕ
latest_time_to_end_slots s = time_of_next_sync_point s

unfoldable pub clamp_time_before_latest_slot_mark : Schedule → ℕ → ℕ
clamp_time_before_latest_slot_mark s proposed_time =
    let cutoff_time = latest_time_to_end_slots s in
    if ltb cutoff_time proposed_time then cutoff_time else proposed_time
