-- ===== src/Agent/Receiver/Steps.antt =====
-- The parts of the handlers, each of which keeps a unit sound. Code: src/modules/syncBehaviour.cpp,
-- src/messageHandler/syncSlotMsgHandler.cpp, src/network/topology.cpp,
-- src/syncAgentImp/syncAgentRole.cpp.
use native.Mathlib.Omega.{arith}
use sleep_sync_agent.Agent.{Agent, Platform}
use sleep_sync_agent.Agent.Behaviour.{
  filter_sync_msg, handle_superior_or_same_sync_msg, handle_superior_or_same_sync_while_merging,
}
use sleep_sync_agent.Agent.Behaviour.SyncSlotHandler.{
  HandlingResult, handle_granularity_aspect, handle_sync_aspect, handle_work_aspect,
}
use sleep_sync_agent.Agent.Control.{
  cancel_any_upstreaming_in_progress, do_downstream_clique_size_change, do_downstream_scatter,
  handle_net_granularity_message, handle_scatter_message, handle_work_cycle_message,
  handle_work_time_message,
}
use sleep_sync_agent.Agent.Mastership.{
  assume_mastership, heard_sync, update_by_sync_message, update_mastership,
}
use sleep_sync_agent.Agent.Merging.{
  deactivate, init_from_msg, init_merge_my_clique, init_merge_other_clique, restart_merge_policy,
  set_period_time, stop_merger, to_fisher_from_merger, to_merger_from_fisher,
}
use sleep_sync_agent.Agent.Modes.{hear_work}
use sleep_sync_agent.Agent.Modes.Consistent.{IsConsistent}
use sleep_sync_agent.Agent.Reversion.{grab_mastership, scatter_sync}
use sleep_sync_agent.Agent.Reversion.Dropout.{IsMember, update_mastership-IsMember}
use sleep_sync_agent.Agent.Roles.{to_fisher, to_merger}
use sleep_sync_agent.Agent.SyncSchedule.{fishing}
use sleep_sync_agent.Base.{Bool, Checked, failed, ok, ℕ, ◌≡◌}
use sleep_sync_agent.Clique.CliqueHistory.{add}
use sleep_sync_agent.Clique.DropoutMonitor.{reset_dropout}
use sleep_sync_agent.Fishing.DeepFishing.{DoneCallback}
use sleep_sync_agent.Fishing.Manager.{Fishing, restart_trolling_mode, switch_to_deep_fishing}
use sleep_sync_agent.Fishing.Trolling.InRange.{restart-Keeps}
use sleep_sync_agent.Message.{SyncMessage}
use sleep_sync_agent.Network.SendRepeater.{stop}

-- A member of a clique, with its mode, role and merger consistent.
pub record IsSound (p : Platform) (a : Agent) : Type 0 where
  pub member : IsMember p a
  pub consistent : IsConsistent a

-- Where an assertion holds, the unit is sound; a failed assertion stops it.
abbrev pub SoundIfOk : Platform → Checked Agent → Type 0
SoundIfOk p (ok a) = IsSound p a
SoundIfOk p failed = Unit {0}

abbrev pub HandledSoundly : Platform → Checked (Agent × HandlingResult) → Type 0
HandledSoundly p (ok (a, result)) = IsSound p a
HandledSoundly p failed = Unit {0}

abbrev pub FilteredSoundly : Platform → Checked (Agent × Bool) → Type 0
FilteredSoundly p (ok (a, heard)) = IsSound p a
FilteredSoundly p failed = Unit {0}

pub update_by_sync_message-SoundIfOk :
    (p : Platform) (a : Agent) (msg : SyncMessage) (toa : ℕ)
    → IsSound p a
    → SoundIfOk p (update_by_sync_message a msg toa)
unfolding update_by_sync_message update_mastership
update_by_sync_message-SoundIfOk p a msg toa v =
    ground (arith, update_mastership-IsMember p a msg.master_id v.member)

pub filter_sync_msg-FilteredSoundly :
    (p : Platform) (a : Agent) (msg : SyncMessage) (toa : ℕ)
    → IsSound p a
    → FilteredSoundly p (filter_sync_msg p a msg toa)
unfolding filter_sync_msg handle_superior_or_same_sync_msg
    handle_superior_or_same_sync_while_merging stop_merger restart_merge_policy
    to_fisher_from_merger deactivate to_fisher heard_sync reset_dropout
filter_sync_msg-FilteredSoundly p a msg toa v =
    ground (arith, update_by_sync_message-SoundIfOk p a msg toa v)

pub scatter_sync-SoundIfOk :
    (p : Platform) (a : Agent) (random_offset : ℕ)
    → IsSound p a
    → SoundIfOk p (scatter_sync p a random_offset)
unfolding scatter_sync grab_mastership restart_trolling_mode
scatter_sync-SoundIfOk p a random_offset v =
    ground (arith, restart-Keeps a.fishing.troll v.member.trolls)

pub stopped-IsSound :
    (p : Platform) (a : Agent) → IsSound p a → IsSound p (record a { repeater = stop a.repeater })
stopped-IsSound p a v = ground arith

pub handle_scatter_message-SoundIfOk :
    (p : Platform) (a : Agent) (msg : SyncMessage) (random_offset : ℕ)
    → IsSound p a
    → SoundIfOk p (handle_scatter_message p a msg random_offset)
unfolding handle_scatter_message cancel_any_upstreaming_in_progress do_downstream_scatter
handle_scatter_message-SoundIfOk p a msg random_offset v = ground (
  arith,
  scatter_sync-SoundIfOk p a random_offset v,
  scatter_sync-SoundIfOk p (record a { repeater = stop a.repeater }) random_offset
      (stopped-IsSound p a v),
)

pub handle_sync_aspect-HandledSoundly :
    (p : Platform) (a : Agent) (msg : SyncMessage) (toa : ℕ)
    → IsSound p a
    → HandledSoundly p (handle_sync_aspect p a msg toa)
unfolding handle_sync_aspect
handle_sync_aspect-HandledSoundly p a msg toa v =
    ground (arith, filter_sync_msg-FilteredSoundly p a msg toa v)

pub handle_granularity_aspect-IsSound :
    (p : Platform) (a : Agent) (msg : SyncMessage)
    → IsSound p a
    → IsSound p (handle_granularity_aspect a msg)
unfolding handle_granularity_aspect
handle_granularity_aspect-IsSound p a msg v = ground arith

pub handle_work_aspect-IsSound :
    (p : Platform) (a : Agent) (msg : SyncMessage)
    → IsSound p a
    → IsSound p (handle_work_aspect a msg)
unfolding handle_work_aspect hear_work
handle_work_aspect-IsSound p a msg v = ground arith

-- The control messages that change neither the clique nor the schedule.
pub handle_net_granularity_message-IsSound :
    (p : Platform) (a : Agent) (msg : SyncMessage)
    → IsSound p a
    → IsSound p (handle_net_granularity_message p a msg)
unfolding handle_net_granularity_message do_downstream_clique_size_change
    cancel_any_upstreaming_in_progress
handle_net_granularity_message-IsSound p a msg v = ground arith

pub handle_work_messages-IsSound :
    (p : Platform) (a : Agent) (msg : SyncMessage)
    → IsSound p a
    → IsSound p (handle_work_time_message p a msg) × IsSound p (handle_work_cycle_message p a msg)
unfolding handle_work_time_message handle_work_cycle_message
handle_work_messages-IsSound p a msg v = ground arith

pub assume_mastership-IsSound :
    (p : Platform) (a : Agent) → IsSound p a → IsSound p (assume_mastership p a)
unfolding assume_mastership
assume_mastership-IsSound p a v = ground arith

-- A change of the fishing mode, of deep fishing or of the count of messages.
pub refished-IsSound :
    (p : Platform) (a : Agent) (fishing : Fishing) (count : ℕ)
    → IsSound p a
    → fishing.troll ≡ a.fishing.troll
    → IsSound p (record a { fishing = fishing; count_merge_sync_heard = count })
refished-IsSound p a fishing count v e = ground arith

pub switch_to_deep_fishing-troll :
    (m : Fishing) (delta : ℕ) (callback : DoneCallback)
    → (switch_to_deep_fishing m delta callback).troll ≡ m.troll
unfolding switch_to_deep_fishing
switch_to_deep_fishing-troll m delta callback = ground arith

pub to_merger_from_fisher-SoundIfOk :
    (p : Platform) (a : Agent) (msg : SyncMessage) (toa : ℕ)
    → IsSound p a
    → SoundIfOk p (to_merger_from_fisher p a msg toa)
unfolding to_merger_from_fisher to_merger init_from_msg init_merge_my_clique init_merge_other_clique
    set_period_time update_by_sync_message update_mastership add
to_merger_from_fisher-SoundIfOk p a msg toa v = ground arith
