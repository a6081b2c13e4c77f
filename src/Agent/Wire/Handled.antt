-- ===== src/Agent/Wire/Handled.antt =====
-- No message that a unit hears makes it keep what does not fit the wire. Code:
-- src/messageHandler, src/modules/syncBehaviour.cpp, src/network, src/cliqueMerger.

use sleep_sync_agent.Agent.{Agent, Platform, is_merger}
use sleep_sync_agent.Agent.Behaviour.{
  filter_sync_msg, handle_superior_or_same_sync_msg, handle_superior_or_same_sync_while_merging,
}
use sleep_sync_agent.Agent.Behaviour.FishSlotHandler.{
  do_fished_sync_msg, handle_catch_from_deep_fishing, handle_in_fish_slot,
}
use sleep_sync_agent.Agent.Behaviour.SyncSlotHandler.{
  handle_granularity_aspect, handle_in_sync_slot, handle_sync_aspect, handle_work_aspect,
}
use sleep_sync_agent.Agent.Control.{
  cancel_any_upstreaming_in_progress, do_downstream_clique_size_change, do_downstream_scatter,
  handle_net_granularity_message, handle_scatter_message, handle_work_cycle_message,
  handle_work_time_message,
}
use sleep_sync_agent.Agent.Mastership.{
  assume_mastership, heard_sync, set_self_mastership, update_by_sync_message, update_mastership,
}
use sleep_sync_agent.Agent.Merging.{
  deactivate, init_from_msg, init_merge_my_clique, init_merge_other_clique, restart_merge_policy,
  set_period_time, stop_merger, to_fisher_from_merger, to_merger_from_fisher,
}
use sleep_sync_agent.Agent.Modes.{hear_work}
use sleep_sync_agent.Agent.Roles.{to_fisher, to_merger}
use sleep_sync_agent.Agent.Wire.{
  AnsweredFitsIfOk, FitsIfOk, FitsIfOk-bind, FitsWire, scatter_sync-FitsIfOk,
  update_by_sync_message-FitsIfOk,
}
use sleep_sync_agent.Base.{Checked, arith, failed, if◌then◌else◌, ok, true, ℕ, ◌<◌, ◌>>=◌, ◌^◌}
use sleep_sync_agent.Clique.CliqueHistory.{add}
use sleep_sync_agent.Message.{SyncMessage}
use sleep_sync_agent.Network.Granularity.{get_raw}
use sleep_sync_agent.Network.SendRepeater.{start, stop}

stop_merger-FitsIfOk : (a : Agent) → FitsWire a → FitsIfOk (stop_merger a)
unfolding stop_merger restart_merge_policy to_fisher_from_merger deactivate to_fisher
stop_merger-FitsIfOk a v = ground arith

heard_sync-FitsWire : (p : Platform) (a : Agent) → FitsWire a → FitsWire (heard_sync p a)
unfolding heard_sync
heard_sync-FitsWire p a v = ground arith

AnsweredFitsIfOk-bind :
    (p : Platform) (r : Checked Agent)
    → FitsIfOk r
    → AnsweredFitsIfOk (r >>= λ b. ok (heard_sync p b, true))
AnsweredFitsIfOk-bind p (ok b) v = heard_sync-FitsWire p b v
AnsweredFitsIfOk-bind p failed v = v

handle_superior_or_same_sync_msg-FitsIfOk :
    (a : Agent) (msg : SyncMessage) (toa : ℕ)
    → FitsWire a
    → msg.master_id < 2 ^ 48
    → FitsIfOk (handle_superior_or_same_sync_msg a msg toa)
unfolding handle_superior_or_same_sync_msg handle_superior_or_same_sync_while_merging
handle_superior_or_same_sync_msg-FitsIfOk a msg toa v k =
    FitsIfOk-bind (update_by_sync_message a msg toa)
      (λ b. if is_merger b.role then handle_superior_or_same_sync_while_merging b msg else ok b)
      (update_by_sync_message-FitsIfOk a msg toa v k)
      (λ b w. ground (arith, stop_merger-FitsIfOk b w))

filter_sync_msg-AnsweredFitsIfOk :
    (p : Platform) (a : Agent) (msg : SyncMessage) (toa : ℕ)
    → FitsWire a
    → msg.master_id < 2 ^ 48
    → AnsweredFitsIfOk (filter_sync_msg p a msg toa)
unfolding filter_sync_msg
filter_sync_msg-AnsweredFitsIfOk p a msg toa v k = ground (
  arith,
  AnsweredFitsIfOk-bind p (handle_superior_or_same_sync_msg a msg toa)
      (handle_superior_or_same_sync_msg-FitsIfOk a msg toa v k),
)

handle_scatter_message-FitsIfOk :
    (p : Platform) (a : Agent) (msg : SyncMessage) (random_offset : ℕ)
    → FitsWire a
    → p.system_id < 2 ^ 48
    → FitsIfOk (handle_scatter_message p a msg random_offset)
unfolding handle_scatter_message cancel_any_upstreaming_in_progress do_downstream_scatter start stop
handle_scatter_message-FitsIfOk p a msg random_offset v k =
    let b = record a { repeater = stop a.repeater } in
    ground (
      arith,
      scatter_sync-FitsIfOk p a random_offset v k,
      λ (w : FitsWire b). scatter_sync-FitsIfOk p b random_offset w k,
    )

handle_net_granularity_message-FitsWire :
    (p : Platform) (a : Agent) (msg : SyncMessage)
    → FitsWire a
    → FitsWire (handle_net_granularity_message p a msg)
unfolding handle_net_granularity_message cancel_any_upstreaming_in_progress
    do_downstream_clique_size_change start stop get_raw
handle_net_granularity_message-FitsWire p a msg v = ground arith

handle_sync_aspect-AnsweredFitsIfOk :
    (p : Platform) (a : Agent) (msg : SyncMessage) (toa : ℕ)
    → FitsWire a
    → msg.master_id < 2 ^ 48
    → AnsweredFitsIfOk (handle_sync_aspect p a msg toa)
unfolding handle_sync_aspect
handle_sync_aspect-AnsweredFitsIfOk p a msg toa v k =
    ground (arith, filter_sync_msg-AnsweredFitsIfOk p a msg toa v k)

handle_granularity_aspect-FitsWire :
    (a : Agent) (msg : SyncMessage) → FitsWire a → FitsWire (handle_granularity_aspect a msg)
unfolding handle_granularity_aspect
handle_granularity_aspect-FitsWire a msg v = ground arith

handle_work_aspect-FitsWire :
    (a : Agent) (msg : SyncMessage) → FitsWire a → FitsWire (handle_work_aspect a msg)
unfolding handle_work_aspect hear_work
handle_work_aspect-FitsWire a msg v = ground arith

pub handle_in_sync_slot-AnsweredFitsIfOk :
    (p : Platform) (a : Agent) (msg : SyncMessage) (toa now random_offset : ℕ)
    → FitsWire a
    → p.system_id < 2 ^ 48
    → msg.master_id < 2 ^ 48
    → AnsweredFitsIfOk (handle_in_sync_slot p a msg toa now random_offset)
unfolding handle_in_sync_slot handle_granularity_aspect handle_work_aspect hear_work
    handle_work_time_message handle_work_cycle_message assume_mastership set_self_mastership
handle_in_sync_slot-AnsweredFitsIfOk p a msg toa now random_offset v k h = ground (
  arith,
  handle_sync_aspect-AnsweredFitsIfOk p (handle_granularity_aspect a msg) msg toa
      (handle_granularity_aspect-FitsWire a msg v) h,
  handle_sync_aspect-AnsweredFitsIfOk p (handle_work_aspect a msg) msg toa
      (handle_work_aspect-FitsWire a msg v) h,
  handle_scatter_message-FitsIfOk p a msg random_offset v k,
  handle_net_granularity_message-FitsWire p a msg v,
)

-- A fisher that catches a better clique's sync keeps that clique's master ID, one that catches a
-- worse clique's keeps its own.
to_merger_from_fisher-FitsIfOk :
    (p : Platform) (a : Agent) (msg : SyncMessage) (toa : ℕ)
    → FitsWire a
    → msg.master_id < 2 ^ 48
    → FitsIfOk (to_merger_from_fisher p a msg toa)
unfolding to_merger_from_fisher to_merger init_from_msg init_merge_my_clique init_merge_other_clique
    set_period_time update_by_sync_message update_mastership add
to_merger_from_fisher-FitsIfOk p a msg toa v k = ground arith

pub handle_in_fish_slot-AnsweredFitsIfOk :
    (p : Platform) (a : Agent) (msg : SyncMessage) (toa : ℕ)
    → FitsWire a
    → msg.master_id < 2 ^ 48
    → AnsweredFitsIfOk (handle_in_fish_slot p a msg toa)
unfolding handle_in_fish_slot do_fished_sync_msg handle_catch_from_deep_fishing
handle_in_fish_slot-AnsweredFitsIfOk p a msg toa v k = ground (
  arith,
  to_merger_from_fisher-FitsIfOk p a msg toa v k,
  update_by_sync_message-FitsIfOk a msg toa v k,
)
