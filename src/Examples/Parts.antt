-- ===== src/Examples/Parts.antt =====
-- Examples of the properties of schedules, fishing, messages and policies.

use sleep_sync_agent.Agent.{fish_slot_end}
use sleep_sync_agent.Agent.SyncSchedule.{schedule_fish_slot_end}
use sleep_sync_agent.Base.{
  [], arith, false, if◌then◌else◌, ok, refl, replicate, true, ◌+◌, ◌<◌, ◌==◌, ◌↔◌, ◌∷◌, ◌≡◌, ◌≤◌,
  ◌⊎◌,
}
use sleep_sync_agent.Clique.DropoutMonitor.Exact.{reports, reports-heard}
use sleep_sync_agent.Examples.{fishing_seven, fresh_schedule, fresh_schedule-IsScheduled}
use sleep_sync_agent.Fishing.FishSchedule.{set_start_and_end_times}
use sleep_sync_agent.Fishing.FishSchedule.Clamped.{set_start_and_end_times_lem}
use sleep_sync_agent.Fishing.Manager.{get_fish_session_duration_ticks, initial_fishing}
use sleep_sync_agent.Fishing.Trolling.{initial_trolling}
use sleep_sync_agent.Fishing.Trolling.Coverage.{Covers, fish-Covers}
use sleep_sync_agent.Fishing.Trolling.InRange.{
  Keeps, fishes, initial_trolling-IsTrolling, measures, restarts, run, run_initial-Keeps,
}
use sleep_sync_agent.Message.{control_scatter_clique, does_carry_sync, merge_other}
use sleep_sync_agent.Message.RoundTrip.{received_type, received_type-eq_iff}
use sleep_sync_agent.Message.Serializer.{Buffer}
use sleep_sync_agent.Network.SendRepeater.{initial_repeater, on_done_scatter, start}
use sleep_sync_agent.Network.SendRepeater.Repeats.{slots, slots-start}

fish-Covers_example : Covers 6405 initial_trolling 777
fish-Covers_example =
    fish-Covers initial_trolling 777 initial_trolling-IsTrolling (ground arith) (ground arith)

run_initial-Keeps_example :
    Keeps (run initial_trolling (fishes ∷ measures true ∷ fishes ∷ restarts ∷ []))
run_initial-Keeps_example = run_initial-Keeps (fishes ∷ measures true ∷ fishes ∷ restarts ∷ [])

set_start_and_end_times_lem_example :
    let (m, t) = set_start_and_end_times initial_fishing fresh_schedule fishing_seven.fish_times in
    let b = schedule_fish_slot_end (record fishing_seven { fishing = m; fish_times = t }) in
    let duration = get_fish_session_duration_ticks initial_fishing in
    (100000 ≤ t.start_time_of_fish_slot)
    × (t.start_time_of_fish_slot ≤ 180000)
    × ((t.end_time_of_fish_slot ≡ t.start_time_of_fish_slot + duration)
          × (t.start_time_of_fish_slot + duration ≤ 180000)
        ⊎ (t.end_time_of_fish_slot ≡ 180000) × (180000 < t.start_time_of_fish_slot + duration))
    × (b.scheduled ≡ (fish_slot_end, duration) ∷ fishing_seven.scheduled)
set_start_and_end_times_lem_example =
    set_start_and_end_times_lem fishing_seven initial_trolling-IsTrolling fresh_schedule-IsScheduled
      (ground arith) (ground arith)

reports-heard_example :
    reports 33 (true ∷ replicate 3 false) ≡ ok (false ∷ false ∷ false ∷ false ∷ [])
reports-heard_example = reports-heard 33 3 (ground arith)

slots-start_example :
    slots (start initial_repeater control_scatter_clique 1 on_done_scatter) (replicate 5 true)
    ≡ ok (
      record (start initial_repeater control_scatter_clique 1 on_done_scatter) {
        is_active = false;
        repeater_counter = 0;
      },
      on_done_scatter ∷ [],
    )
slots-start_example =
    slots-start initial_repeater control_scatter_clique 1 on_done_scatter (replicate 5 true) refl

received_type-eq_iff_example :
    (received_type merge_other ≡ merge_other) ↔ (does_carry_sync merge_other ≡ true)
received_type-eq_iff_example = received_type-eq_iff merge_other (λ e. ground arith)

abbrev far : Buffer
far = λ i. if i == 9 then 2 else 1
