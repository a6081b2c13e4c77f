-- ===== src/Agent/Receiver/Total.antt =====
-- No assertion fails when a unit handles a message whose sync its period can take. Code:
-- src/messageHandler, src/modules/syncBehaviour.cpp, src/clique, src/cliqueMerger.
use native.Mathlib.Omega.{arith}
use sleep_sync_agent.Agent.{Agent, CliqueMerger, Platform, is_fisher, is_merger, merger}
use sleep_sync_agent.Agent.Behaviour.{
  filter_sync_msg, handle_superior_or_same_sync_msg, handle_superior_or_same_sync_while_merging,
}
use sleep_sync_agent.Agent.Behaviour.SyncSlotHandler.{HandlingResult}
use sleep_sync_agent.Agent.Control.{
  cancel_any_upstreaming_in_progress, do_downstream_scatter, handle_scatter_message,
}
use sleep_sync_agent.Agent.Mastership.{heard_sync, update_by_sync_message, update_mastership}
use sleep_sync_agent.Agent.Merging.{
  deactivate, init_from_msg, init_merge_my_clique, init_merge_other_clique,
  middle_of_next_sync_slot_of_catch, middle_of_next_sync_slot_of_fisher, next_sync_point_of_fisher,
  past_sync_point_of_catch, period_time_to_merge_my_clique, period_time_to_merge_other_clique,
  restart_merge_policy, set_period_time, stop_merger, to_fisher_from_merger, to_merger_from_fisher,
}
use sleep_sync_agent.Agent.Merging.Aligned.{remainder-bounds}
use sleep_sync_agent.Agent.Modes.Consistent.{has_role}
use sleep_sync_agent.Agent.Receiver.Steps.{IsSound, stopped-IsSound}
use sleep_sync_agent.Agent.Reversion.{grab_mastership, scatter_sync}
use sleep_sync_agent.Agent.Reversion.Dropout.{update_mastership-IsMember}
use sleep_sync_agent.Agent.Roles.{to_fisher, to_merger}
use sleep_sync_agent.Base.{
  Bool, Checked, failed, false, if◌then◌else◌, ok, true, ℕ, ◌<◌, ◌>>=◌, ◌≡◌, ◌≤◌,
}
use sleep_sync_agent.Clique.CliqueHistory.{add}
use sleep_sync_agent.Clique.DropoutMonitor.{reset_dropout}
use sleep_sync_agent.Fishing.Manager.{is_deep_fishing, restart_trolling_mode}
use sleep_sync_agent.Fishing.Trolling.InRange.{restart-Keeps}
use sleep_sync_agent.Message.{SyncMessage, does_carry_sync}
use sleep_sync_agent.Network.SendRepeater.{stop}
use sleep_sync_agent.Params.{normal_sync_period_duration}
use sleep_sync_agent.Schedule.{adjust, adjust_with_random_added_time}
use sleep_sync_agent.Schedule.Adjusting.{IsScheduled, clock_limit}
use sleep_sync_agent.Schedule.Heeding.{Heeds, adjust_by_sync_msg-Heeds}

-- A sound unit, on a schedule that keeps its invariant, in a clique that is its own or a better
-- one.
pub record IsReady (p : Platform) (a : Agent) : Type 0 where
  pub sound : IsSound p a
  pub scheduled : IsScheduled a.schedule
  pub early : a.schedule.start_time_of_sync_period < clock_limit
  pub never_worse : a.clique_master_id ≤ p.system_id

-- No assertion failed, and the unit is ready again.
abbrev pub Ready : Platform → Checked Agent → Type 0
Ready p (ok a) = IsReady p a
Ready p failed = ⊥

abbrev pub HandledReady : Platform → Checked (Agent × HandlingResult) → Type 0
HandledReady p (ok (a, result)) = IsReady p a
HandledReady p failed = ⊥

abbrev FilteredReady : Platform → Checked (Agent × Bool) → Type 0
FilteredReady p (ok (a, heard)) = IsReady p a
FilteredReady p failed = ⊥

Ready-bind :
    (p : Platform) (r : Checked Agent) (f : Agent → Checked Agent)
    → Ready p r
    → ((b : Agent) → IsReady p b → Ready p (f b))
    → Ready p (r >>= f)
Ready-bind p (ok b) f v h = h b v
Ready-bind p failed f v h = v

pub update_by_sync_message-Ready :
    (p : Platform) (a : Agent) (msg : SyncMessage) (toa : ℕ)
    → IsReady p a
    → does_carry_sync msg.type ≡ true
    → msg.master_id ≤ p.system_id
    → Heeds a.schedule toa msg.delta_to_next_sync_point
    → Ready p (update_by_sync_message a msg toa)
unfolding update_by_sync_message update_mastership
update_by_sync_message-Ready p a msg toa v c k h = ground (
  arith,
  update_mastership-IsMember p a msg.master_id v.sound.member,
  adjust_by_sync_msg-Heeds a.schedule toa msg.delta_to_next_sync_point v.scheduled v.early h,
)

heard_sync-IsReady : (p : Platform) (a : Agent) → IsReady p a → IsReady p (heard_sync p a)
unfolding heard_sync reset_dropout
heard_sync-IsReady p a v = ground arith

FilteredReady-bind :
    (p : Platform) (r : Checked Agent)
    → Ready p r
    → FilteredReady p (r >>= λ b. ok (heard_sync p b, true))
FilteredReady-bind p (ok b) v = heard_sync-IsReady p b v
FilteredReady-bind p failed v = v

-- A merger that stops has the role that its mode asks for.
stop_merger-Ready :
    (p : Platform) (a : Agent) → IsReady p a → a.role ≡ merger → Ready p (stop_merger a)
unfolding stop_merger restart_merge_policy to_fisher_from_merger deactivate to_fisher
stop_merger-Ready p a v r = ground arith

handle_superior_or_same_sync_msg-Ready :
    (p : Platform) (a : Agent) (msg : SyncMessage) (toa : ℕ)
    → IsReady p a
    → does_carry_sync msg.type ≡ true
    → msg.master_id ≤ p.system_id
    → Heeds a.schedule toa msg.delta_to_next_sync_point
    → Ready p (handle_superior_or_same_sync_msg a msg toa)
unfolding handle_superior_or_same_sync_msg handle_superior_or_same_sync_while_merging
handle_superior_or_same_sync_msg-Ready p a msg toa v c k h =
    Ready-bind p (update_by_sync_message a msg toa)
      (λ b. if is_merger b.role then handle_superior_or_same_sync_while_merging b msg else ok b)
      (update_by_sync_message-Ready p a msg toa v c k h)
      (λ b w. ground (arith, stop_merger-Ready p b w))

pub filter_sync_msg-FilteredReady :
    (p : Platform) (a : Agent) (msg : SyncMessage) (toa : ℕ)
    → IsReady p a
    → does_carry_sync msg.type ≡ true
    → Heeds a.schedule toa msg.delta_to_next_sync_point
    → FilteredReady p (filter_sync_msg p a msg toa)
unfolding filter_sync_msg
filter_sync_msg-FilteredReady p a msg toa v c h = ground (
  arith,
  v.never_worse,
  λ (k : msg.master_id ≤ p.system_id).
      FilteredReady-bind p (handle_superior_or_same_sync_msg a msg toa)
        (handle_superior_or_same_sync_msg-Ready p a msg toa v c k h),
)

scatter_sync-Ready :
    (p : Platform) (a : Agent) (random_offset : ℕ)
    → IsReady p a
    → random_offset ≤ normal_sync_period_duration
    → Ready p (scatter_sync p a random_offset)
unfolding scatter_sync grab_mastership restart_trolling_mode adjust_with_random_added_time adjust
scatter_sync-Ready p a random_offset v k =
    ground (arith, restart-Keeps a.fishing.troll v.sound.member.trolls)

pub handle_scatter_message-Ready :
    (p : Platform) (a : Agent) (msg : SyncMessage) (random_offset : ℕ)
    → IsReady p a
    → random_offset ≤ normal_sync_period_duration
    → Ready p (handle_scatter_message p a msg random_offset)
unfolding handle_scatter_message cancel_any_upstreaming_in_progress do_downstream_scatter
handle_scatter_message-Ready p a msg random_offset v k = ground (
  arith,
  scatter_sync-Ready p a random_offset v k,
  scatter_sync-Ready p (record a { repeater = stop a.repeater }) random_offset
      (record {
        sound = stopped-IsSound p a v.sound;
        scheduled = v.scheduled;
        early = v.early;
        never_worse = v.never_worse;
      })
      k,
)

set_period_time-my :
    (p : Platform) (a : Agent) (toa : ℕ)
    → let start = period_time_to_merge_my_clique p a toa in
      set_period_time a.clique_merger start
      ≡ ok (record a.clique_merger { period_time_to_merge_slot_start = start })
unfolding set_period_time period_time_to_merge_my_clique
set_period_time-my p a toa = ground (
  arith,
  remainder-bounds p (
      p.time.clamped_time_difference (middle_of_next_sync_slot_of_fisher p a)
        (past_sync_point_of_catch p toa)),
)

set_period_time-other :
    (p : Platform) (a : Agent) (toa : ℕ)
    → let start = period_time_to_merge_other_clique p a toa in
      set_period_time a.clique_merger start
      ≡ ok (record a.clique_merger { period_time_to_merge_slot_start = start })
unfolding set_period_time period_time_to_merge_other_clique
set_period_time-other p a toa = ground (
  arith,
  remainder-bounds p (
      p.time.clamped_time_difference (middle_of_next_sync_slot_of_catch toa)
        (next_sync_point_of_fisher a)),
)

-- A fisher in a mode for fishing that becomes a merger is ready whatever its merger is about to
-- tell.
merging-IsReady :
    (p : Platform) (a : Agent) (m : CliqueMerger)
    → IsReady p a
    → has_role a.role ≡ true
    → m.is_merging ≡ true
    → IsReady p (record a { role = merger; clique_merger = m })
merging-IsReady p a m v r e = ground arith

pub to_merger_from_fisher-Ready :
    (p : Platform) (a : Agent) (msg : SyncMessage) (toa : ℕ)
    → IsReady p a
    → is_fisher a.role ≡ true
    → is_deep_fishing a.fishing.mode ≡ false
    → does_carry_sync msg.type ≡ true
    → Heeds a.schedule toa msg.delta_to_next_sync_point
    → Ready p (to_merger_from_fisher p a msg toa)
unfolding to_merger_from_fisher to_merger init_from_msg init_merge_my_clique init_merge_other_clique
    update_by_sync_message update_mastership add
to_merger_from_fisher-Ready p a msg toa v r d c h = ground (
  arith,
  set_period_time-my p (record a { role = merger }) toa,
  set_period_time-other p (record a { role = merger }) toa,
  adjust_by_sync_msg-Heeds a.schedule toa msg.delta_to_next_sync_point v.scheduled v.early h,
)
