-- ===== src/Agent/Merging/Aligned.antt =====
-- When the merge slot of a merger starts. Code: src/cliqueMerger/cliqueMerger.cpp,
-- src/clique/periodTime.cpp.
use native.Mathlib.Omega.{arith}
use sleep_sync_agent.Agent.{Agent, CliqueMerger, Platform}
use sleep_sync_agent.Agent.Mastership.{update_by_sync_message}
use sleep_sync_agent.Agent.Merging.{
  adjusted_raw_time_to_merge_clique, earliest_merge_time, init_from_msg, init_merge_my_clique,
  init_merge_other_clique, middle_of_next_sync_slot_of_catch, middle_of_next_sync_slot_of_fisher,
  next_sync_point_of_fisher, past_sync_point_of_catch, period_time_to_merge_my_clique,
  period_time_to_merge_other_clique, set_period_time, to_merger_from_fisher,
}
use sleep_sync_agent.Base.{ok, ℕ, ◌%◌, ◌*◌, ◌+◌, ◌-◌, ◌<◌, ◌^◌, ◌≡◌, ◌≤◌}
use sleep_sync_agent.Message.{SyncMessage, time_of_transmittal}
use sleep_sync_agent.Params.{
  guessed_send_latency, normal_sync_period_duration, preflight_delta, virtual_slot_duration,
}
use sleep_sync_agent.TimeMath.{TimeLaws}

preflight_delta-bounds :
    (p : Platform) → (54 ≤ preflight_delta p.chip) × (preflight_delta p.chip ≤ 60)
preflight_delta-bounds p = ground arith

-- The merge slot starts after the sync slot and the slot that follows it, and early enough for
-- the preflight before the sync period ends, whatever the raw time.
adjusted_raw_time-bounds :
    (p : Platform) (raw_time : ℕ)
    → raw_time < normal_sync_period_duration
    → (2 * virtual_slot_duration < adjusted_raw_time_to_merge_clique p raw_time)
      × (adjusted_raw_time_to_merge_clique p raw_time + preflight_delta p.chip
          < normal_sync_period_duration)
unfolding adjusted_raw_time_to_merge_clique
adjusted_raw_time-bounds p raw_time h = ground (arith, preflight_delta-bounds p)

pub remainder-bounds :
    (p : Platform) (d : ℕ)
    → let start = adjusted_raw_time_to_merge_clique p (d % normal_sync_period_duration) in
      (2 * virtual_slot_duration < start)
      × (start + preflight_delta p.chip < normal_sync_period_duration)
remainder-bounds p d = adjusted_raw_time-bounds p (d % normal_sync_period_duration) (omega arith)

-- A merge slot lies after the sync slot of its period and the slot that follows, and a preflight
-- before the end.
abbrev pub FitsPeriod : Platform → CliqueMerger → Type 0
FitsPeriod p m =
    (2 * virtual_slot_duration < m.period_time_to_merge_slot_start)
    × (m.period_time_to_merge_slot_start + preflight_delta p.chip < normal_sync_period_duration)

init_merge_my_clique-FitsPeriod :
    (p : Platform) (a b : Agent) (msg : SyncMessage) (toa : ℕ)
    → init_merge_my_clique p a msg toa ≡ ok b
    → FitsPeriod p b.clique_merger
unfolding init_merge_my_clique period_time_to_merge_my_clique set_period_time update_by_sync_message
init_merge_my_clique-FitsPeriod p a b msg toa e = ground (
  arith,
  remainder-bounds p (
      p.time.clamped_time_difference (middle_of_next_sync_slot_of_fisher p a)
        (past_sync_point_of_catch p toa)),
)

init_merge_other_clique-FitsPeriod :
    (p : Platform) (a b : Agent) (msg : SyncMessage) (toa : ℕ)
    → init_merge_other_clique p a msg toa ≡ ok b
    → FitsPeriod p b.clique_merger
unfolding init_merge_other_clique period_time_to_merge_other_clique set_period_time
init_merge_other_clique-FitsPeriod p a b msg toa e = ground (
  arith,
  remainder-bounds p (
      p.time.clamped_time_difference (middle_of_next_sync_slot_of_catch toa)
        (next_sync_point_of_fisher a)),
)

-- Whatever a caught message says and whenever it arrived, a merger that is begun has its merge slot
-- after the sync slot and the slot that follows, and a preflight before the end of a period.
pub to_merger_from_fisher-FitsPeriod :
    (p : Platform) (a b : Agent) (msg : SyncMessage) (toa : ℕ)
    → to_merger_from_fisher p a msg toa ≡ ok b
    → FitsPeriod p b.clique_merger
unfolding to_merger_from_fisher init_from_msg
to_merger_from_fisher-FitsPeriod p a b msg toa e = ground arith

-- The merge slot of a unit that tells another clique to merge: in a period of its own, and after
-- the preflight, it falls on the middle of the other clique's sync slot, modulo the period. This is
-- so under the laws of clock arithmetic, where the clock and the differences do not wrap, the other clique's next sync slot is not
-- before the unit's next sync point, and the time is not so early that it is moved.
pub merge_other-aligns :
    (p : Platform) (a : Agent) (toa : ℕ)
    → TimeLaws p.time
    → guessed_send_latency ≤ toa
    → toa + normal_sync_period_duration < 2 ^ 64
    → let now = toa - guessed_send_latency in
      let next = a.schedule.end_time_of_sync_period in
      let middle = now + normal_sync_period_duration in
      next ≤ middle
      → middle < next + 2 ^ 32
      → earliest_merge_time p < (middle - next) % normal_sync_period_duration
      → (next + period_time_to_merge_other_clique p a toa + preflight_delta p.chip)
          % normal_sync_period_duration
        ≡ now % normal_sync_period_duration
unfolding period_time_to_merge_other_clique middle_of_next_sync_slot_of_catch
    next_sync_point_of_fisher time_of_transmittal adjusted_raw_time_to_merge_clique
merge_other-aligns p a toa laws h k o r e =
    let middle = toa - guessed_send_latency + normal_sync_period_duration in
    ground (
      arith,
      laws.time_exact middle a.schedule.end_time_of_sync_period o r,
      preflight_delta-bounds p,
    )
