-- ===== src/Agent/Behaviour/Lesser.antt =====
-- Which clique a unit is in after one step. Code: src/messageHandler, src/modules/syncBehaviour.cpp,
-- src/clique/cliqueRoles.cpp, src/network.

use sleep_sync_agent.Agent.{Agent, Platform}
use sleep_sync_agent.Agent.Behaviour.{filter_sync_msg}
use sleep_sync_agent.Agent.Behaviour.Better.{filter_sync_msg-lesser}
use sleep_sync_agent.Agent.Behaviour.FishSlotHandler.{
  do_fished_sync_msg, handle_catch_from_deep_fishing, handle_in_fish_slot,
}
use sleep_sync_agent.Agent.Behaviour.SyncSlotHandler.{
  HandlingResult, handle_granularity_aspect, handle_in_sync_slot, handle_sync_aspect,
  handle_work_aspect, result_of_sync,
}
use sleep_sync_agent.Agent.Control.{
  cancel_any_upstreaming_in_progress, do_downstream_clique_size_change, do_downstream_scatter,
  handle_net_granularity_message, handle_scatter_message, handle_work_cycle_message,
  handle_work_time_message,
}
use sleep_sync_agent.Agent.Mastership.{assume_mastership, update_by_sync_message, update_mastership}
use sleep_sync_agent.Agent.Merging.{
  init_from_msg, init_merge_my_clique, init_merge_other_clique, set_period_time,
  to_merger_from_fisher,
}
use sleep_sync_agent.Agent.Modes.{hear_work}
use sleep_sync_agent.Agent.Receiver.Slot.{heard}
use sleep_sync_agent.Agent.Reversion.{grab_mastership, scatter_sync}
use sleep_sync_agent.Agent.Roles.{to_merger}
use sleep_sync_agent.Agent.Tasks.Sound.Master.{KeepsOrOwns}
use sleep_sync_agent.Base.{
  Bool, Checked, arith, failed, if◌then◌else◌, ltb, ok, refl, ℕ, ◌>>=◌, ◌≡◌, ◌≢◌, ◌⊎◌,
}
use sleep_sync_agent.Fishing.Manager.{restart_trolling_mode}
use sleep_sync_agent.Message.{SyncMessage, master_sync, work_sync}

abbrev pub lesser : ℕ → ℕ → ℕ
lesser x y = if ltb x y then x else y

lesser_of_filtered :
    (p : Platform) (a b : Agent) (msg : SyncMessage) (toa : ℕ) (result : HandlingResult)
    (r : Checked (Agent × Bool))
    → filter_sync_msg p a msg toa ≡ r
    → (r >>= λ handled. ok (result_of_sync handled)) ≡ ok (b, result)
    → b.clique_master_id ≡ lesser msg.master_id a.clique_master_id
unfolding result_of_sync
lesser_of_filtered p a b msg toa result (ok (c, heard)) f e =
    ground (arith, filter_sync_msg-lesser p a c msg toa heard f)
lesser_of_filtered p a b msg toa result failed f e = ground arith

handle_sync_aspect-lesser :
    (p : Platform) (a b : Agent) (msg : SyncMessage) (toa : ℕ) (result : HandlingResult)
    → handle_sync_aspect p a msg toa ≡ ok (b, result)
    → b.clique_master_id ≡ lesser msg.master_id a.clique_master_id
unfolding handle_sync_aspect
handle_sync_aspect-lesser p a b msg toa result e =
    lesser_of_filtered p a b msg toa result (filter_sync_msg p a msg toa) refl e

pub handle_in_sync_slot-lesser :
    (p : Platform) (a b : Agent) (msg : SyncMessage) (toa now random_offset : ℕ)
    (result : HandlingResult)
    → (msg.type ≡ master_sync) ⊎ (msg.type ≡ work_sync)
    → handle_in_sync_slot p a msg toa now random_offset ≡ ok (b, result)
    → b.clique_master_id ≡ lesser msg.master_id a.clique_master_id
unfolding handle_in_sync_slot handle_granularity_aspect handle_work_aspect hear_work
handle_in_sync_slot-lesser p a b msg toa now random_offset result t e = ground (
  arith,
  handle_sync_aspect-lesser p (handle_granularity_aspect a msg) b msg toa result,
  handle_sync_aspect-lesser p (handle_work_aspect a msg) b msg toa result,
)

to_merger_from_fisher-lesser :
    (p : Platform) (a b : Agent) (msg : SyncMessage) (toa : ℕ)
    → to_merger_from_fisher p a msg toa ≡ ok b
    → b.clique_master_id ≡ lesser msg.master_id a.clique_master_id
unfolding to_merger_from_fisher to_merger init_from_msg init_merge_my_clique init_merge_other_clique
    set_period_time update_by_sync_message update_mastership
to_merger_from_fisher-lesser p a b msg toa e = ground arith

abbrev JoinsLesser : Agent → SyncMessage → Checked (Agent × HandlingResult) → Type 0
JoinsLesser a msg (ok (b, result)) = b.clique_master_id ≡ lesser msg.master_id a.clique_master_id
JoinsLesser a msg failed = Unit {0}

do_fished_sync_msg-JoinsLesser :
    (p : Platform) (a : Agent) (msg : SyncMessage) (toa : ℕ)
    → (r : Checked Agent) → to_merger_from_fisher p a msg toa ≡ r
    → JoinsLesser a msg (do_fished_sync_msg p a msg toa)
unfolding do_fished_sync_msg handle_catch_from_deep_fishing update_by_sync_message update_mastership
do_fished_sync_msg-JoinsLesser p a msg toa (ok b) e =
    ground (arith, to_merger_from_fisher-lesser p a b msg toa)
do_fished_sync_msg-JoinsLesser p a msg toa failed e = ground arith

pub handle_in_fish_slot-lesser :
    (p : Platform) (a b : Agent) (msg : SyncMessage) (toa : ℕ) (result : HandlingResult)
    → (msg.type ≡ master_sync) ⊎ (msg.type ≡ work_sync)
    → handle_in_fish_slot p a msg toa ≡ ok (b, result)
    → b.clique_master_id ≡ lesser msg.master_id a.clique_master_id
unfolding handle_in_fish_slot
handle_in_fish_slot-lesser p a b msg toa result t e =
    ground
      (arith, do_fished_sync_msg-JoinsLesser p a msg toa (to_merger_from_fisher p a msg toa) refl)

-- Any other message in a sync or fish slot leaves a unit in its clique, or takes it into its own.
pub told-KeepsOrOwns :
    (p : Platform) (a b : Agent) (msg : SyncMessage) (toa now random_offset : ℕ)
    (result : HandlingResult)
    → msg.type ≢ master_sync
    → msg.type ≢ work_sync
    → handle_in_sync_slot p a msg toa now random_offset ≡ ok (b, result)
    → KeepsOrOwns p a (ok b)
unfolding handle_in_sync_slot handle_net_granularity_message do_downstream_clique_size_change
    cancel_any_upstreaming_in_progress handle_scatter_message do_downstream_scatter scatter_sync
    grab_mastership restart_trolling_mode handle_work_time_message handle_work_cycle_message
    assume_mastership
told-KeepsOrOwns p a b msg toa now random_offset result m w e = ground arith

pub missed-keeps :
    (p : Platform) (a b : Agent) (msg : SyncMessage) (toa : ℕ) (result : HandlingResult)
    → msg.type ≢ master_sync
    → msg.type ≢ work_sync
    → handle_in_fish_slot p a msg toa ≡ ok (b, result)
    → b ≡ a
unfolding handle_in_fish_slot
missed-keeps p a b msg toa result m w e = ground arith
