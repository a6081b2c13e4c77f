-- ===== src/Agent/Life/Sound.antt =====
-- A unit is sound all its life. Code: src/task, src/receiver/receiver.cpp, src/messageHandler,
-- src/clique, src/syncAgentImp, src/network/topologyProvisioner.cpp,
-- src/provisioning/workProvisioner.cpp.

use sleep_sync_agent.Agent.{Agent, Platform, power_reserve_check}
use sleep_sync_agent.Agent.Control.{
  do_downstream_clique_size_change, do_downstream_scatter, do_upstream_clique_size_change,
  do_upstream_scatter, do_upstream_work_cycle, do_upstream_work_time,
  handle_net_granularity_provisioning, handle_scatter_provisioning, provision_work_cycle,
  provision_work_time,
}
use sleep_sync_agent.Agent.Life.{
  Event, happens, hears_in_fish_slot, hears_in_sync_slot, life, provisions_granularity,
  provisions_scatter, provisions_work_cycle, provisions_work_time, runs,
}
use sleep_sync_agent.Agent.Receiver.{dispatch, handle_unserialized}
use sleep_sync_agent.Agent.Receiver.Invariant.{
  handle_in_fish_slot-HandledSoundly, handle_in_sync_slot-HandledSoundly,
}
use sleep_sync_agent.Agent.Receiver.Slot.{
  Arrival, fish_slot_handler, heard, on_msg_received, sync_slot_handler,
}
use sleep_sync_agent.Agent.Receiver.Steps.{HandledSoundly, IsSound, SoundIfOk}
use sleep_sync_agent.Agent.Tasks.Sound.Running.{SoundIfOk-bind, run-SoundIfOk}
use sleep_sync_agent.Base.{List, [], arith, ◌∷◌, ◌≢◌}
use sleep_sync_agent.Message.Serializer.{
  unserialize, unserialize_fields, unserialize_offset, unserialize_type,
}
use sleep_sync_agent.Network.SendRepeater.{start}

-- The task that waits for power before the loop sets up the unit, and does not run again.
abbrev pub IsOfLoop : Event → Type 0
IsOfLoop (runs task v) = task ≢ power_reserve_check
IsOfLoop _ = Unit {0}

abbrev pub AreOfLoop : List Event → Type 0
AreOfLoop [] = Unit {0}
AreOfLoop (x ∷ xs) = IsOfLoop x × AreOfLoop xs

on_msg_received-HandledSoundly :
    (p : Platform) (a : Agent) (x : Arrival)
    → IsSound p a
    → HandledSoundly p (on_msg_received (sync_slot_handler p) a x)
      × HandledSoundly p (on_msg_received (fish_slot_handler p) a x)
unfolding on_msg_received dispatch handle_unserialized unserialize unserialize_fields
    unserialize_type unserialize_offset
on_msg_received-HandledSoundly p a x v = ground (
  arith,
  handle_in_sync_slot-HandledSoundly p a (heard x) x.toa x.now x.random_offset v,
  handle_in_fish_slot-HandledSoundly p a (heard x) x.toa v,
)

happens-SoundIfOk :
    (p : Platform) (a : Agent) (x : Event) → IsSound p a → IsOfLoop x → SoundIfOk p (happens p a x)
unfolding happens handle_net_granularity_provisioning do_downstream_clique_size_change
    do_upstream_clique_size_change start provision_work_cycle do_upstream_work_cycle
    provision_work_time do_upstream_work_time handle_scatter_provisioning do_downstream_scatter
    do_upstream_scatter
happens-SoundIfOk p a (runs task v) w h = run-SoundIfOk p a v task w h
happens-SoundIfOk p a (hears_in_sync_slot x) w h =
    ground (arith, (on_msg_received-HandledSoundly p a x w).0)
happens-SoundIfOk p a (hears_in_fish_slot x) w h =
    ground (arith, (on_msg_received-HandledSoundly p a x w).1)
happens-SoundIfOk p a (provisions_granularity value) w h = ground arith
happens-SoundIfOk p a (provisions_work_cycle value) w h = ground arith
happens-SoundIfOk p a (provisions_work_time convert value) w h = ground arith
happens-SoundIfOk p a provisions_scatter w h = ground arith

-- The invariant of the whole unit: whatever tasks of the loop run, packets arrive and provisionings
-- come, in any order, a sound unit stays sound, up to an assertion that fails. Sound means: the
-- first record of the clique history is the unit's own and the current one is in range, a slave
-- has a former clique, at most eighty sync slots were silent, the trolling session lies within the
-- sleeping slots, the unit has a role for fishing just in a mode for fishing, and the merger is
-- active just in the role of a merger.
pub life-SoundIfOk :
    (p : Platform) (a : Agent) (xs : List Event)
    → IsSound p a
    → AreOfLoop xs
    → SoundIfOk p (life p a xs)
unfolding life
life-SoundIfOk p a [] v h = v
life-SoundIfOk p a (x ∷ xs) v h =
    SoundIfOk-bind p (happens p a x) (λ b. life p b xs) (happens-SoundIfOk p a x v h.0)
      (λ b w. life-SoundIfOk p b xs w h.1)
