-- ===== src/Examples/Lives.antt =====
-- Examples of the properties of a unit's whole life.

use sleep_sync_agent.Agent.{
  initial_agent, power_reserve_check, prelude_w_sync, send_sync_task, start_sync_period_maintain,
  start_sync_slot_after_prelude,
}
use sleep_sync_agent.Agent.Life.{
  Event, hears_in_sync_slot, life, life-FitsIfOk, provisions_scatter, runs, serialize_bytes,
}
use sleep_sync_agent.Agent.Life.Sound.{life-SoundIfOk}
use sleep_sync_agent.Agent.Receiver.Steps.{SoundIfOk}
use sleep_sync_agent.Agent.Wire.{FitsIfOk, FitsWire}
use sleep_sync_agent.Base.{List, [], arith, ◌∷◌}
use sleep_sync_agent.Examples.{blank, master_seven, seven, sync_of_three}
use sleep_sync_agent.Examples.Periods.{arrival_of_three, master_seven-IsReady}
use sleep_sync_agent.Examples.Tasks.{answers}

initial_agent-FitsWire : FitsWire initial_agent
initial_agent-FitsWire = record {
  master = ground arith;
  former = λ i. ground arith;
  superior = ground arith;
  value = ground arith;
  all_sent = tt;
}

-- Unit 7 powers on, sends its sync, hears unit 3, and is provisioned to scatter.
abbrev first_events : List Event
first_events =
    runs power_reserve_check answers
    ∷ runs start_sync_period_maintain answers
    ∷ runs prelude_w_sync (record answers { now = 180000 })
    ∷ runs start_sync_slot_after_prelude (record answers { now = 180050 })
    ∷ runs send_sync_task (record answers { now = 180075 })
    ∷ hears_in_sync_slot (record arrival_of_three { toa = 180100 })
    ∷ provisions_scatter
    ∷ []

life-FitsIfOk_example : FitsIfOk (life seven initial_agent first_events)
life-FitsIfOk_example =
    life-FitsIfOk seven initial_agent first_events initial_agent-FitsWire (ground arith) (
      ground arith,
      (
        ground arith,
        (
          ground arith,
          (
            ground arith,
            (ground arith, (serialize_bytes sync_of_three blank (λ i. ground arith), (tt, tt))),
          ),
        ),
      ),
    )

-- Unit 7 hears unit 3, is provisioned to scatter, and begins its next sync slot.
abbrev later_events : List Event
later_events =
    hears_in_sync_slot arrival_of_three
    ∷ provisions_scatter
    ∷ runs prelude_w_sync answers
    ∷ runs start_sync_slot_after_prelude answers
    ∷ []

life-SoundIfOk_example : SoundIfOk seven (life seven master_seven later_events)
life-SoundIfOk_example =
    life-SoundIfOk seven master_seven later_events master_seven-IsReady.sound
      (tt, (tt, ((λ e. ground arith), ((λ e. ground arith), tt))))
