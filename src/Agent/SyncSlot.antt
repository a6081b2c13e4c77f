-- ===== src/Agent/SyncSlot.antt =====
-- src/slots/sync/syncSlot.cpp, syncSlotProperty.cpp and src/syncAgentImp/syncAgentLoop.cpp: what a
-- unit does around its sync slot.

pub mod Kinds
use sleep_sync_agent.Agent.{Agent, Platform, SyncSlotKind, listen, send_sync}
use sleep_sync_agent.Agent.Control.{check_done_and_enact, should_send_control_sync}
use sleep_sync_agent.Agent.Mastership.{init_clique, is_self_master, should_transmit_sync}
use sleep_sync_agent.Agent.Modes.{
  PowerReading, check_power_and_try_mode_transitions, manage_fish_power, reset_to_mode_maintain,
  reset_work_state,
}
use sleep_sync_agent.Agent.Reversion.{check_master_dropped_out}
use sleep_sync_agent.Agent.SyncSchedule.{sync_send_task, sync_slot_end_from_listen}
use sleep_sync_agent.Base.{Bool, Checked, check, if◌then◌else◌, not, ok, ℕ, ◌>>=◌, ◌>>◌}
use sleep_sync_agent.Clique.CliqueHistory.{init_history}
use sleep_sync_agent.Message.{SyncMessage}
use sleep_sync_agent.Schedule.{roll_period_forward, set_end_time_of_sync_period_to_now}

-- What the clock, the power manager, Random, the alarming clock, the app's mailbox, the radio's
-- packet factory and the provisioner answer during one task.
pub record Answers : Type 0 where
  pub now : ℕ
  pub power : PowerReading
  pub alarm : Bool
  pub sync_toss : Bool
  pub control_toss : Bool
  pub merge_toss : Bool
  pub random_offset : ℕ
  pub is_mail : Bool
  pub mail : ℕ
  pub message : SyncMessage
  pub is_provisioner_started : Bool

-- SyncAgentImp::preludeToSyncPeriod, which is bookkeepingAtStartSyncSlot.
unfoldable pub prelude_to_sync_period : Agent → Agent
unfolding reset_work_state
prelude_to_sync_period a = reset_work_state (record a { schedule = roll_period_forward a.schedule })

-- The callback of the app before it has no effect on the unit.
unfoldable pub bookkeeping_at_prelude_to_sync_slot : Platform → Agent → Answers → Checked Agent
unfolding manage_fish_power
bookkeeping_at_prelude_to_sync_slot p a v =
    manage_fish_power (check_power_and_try_mode_transitions p a v.power) v.power

-- SyncSlotProperty::decideKind, after the two calls that count.
choose_kind : Bool → Bool → Bool → SyncSlotKind
choose_kind control_due is_mail need_xmit_sync =
    if control_due
    then SyncSlotKind.send_control_sync
    else if is_mail
    then SyncSlotKind.send_work_sync
    else if need_xmit_sync
    then send_sync
    else listen

unfoldable pub decide_kind : Platform → Agent → Answers → Agent × SyncSlotKind
unfolding choose_kind
decide_kind p a v =
    let (b, need_xmit_sync) = should_transmit_sync p a v.alarm v.sync_toss in
    let (c, control_due) = should_send_control_sync b v.control_toss in
    (c, choose_kind control_due v.is_mail need_xmit_sync)

dispatch_kind : Platform → Agent → Answers → SyncSlotKind → Checked Agent
unfolding sync_send_task sync_slot_end_from_listen
dispatch_kind p a v SyncSlotKind.send_control_sync =
    check_done_and_enact p (sync_send_task p a v.now) v.random_offset
dispatch_kind p a v SyncSlotKind.send_work_sync = ok (sync_send_task p a v.now)
dispatch_kind p a v send_sync = ok (sync_send_task p a v.now)
dispatch_kind p a v listen = ok (sync_slot_end_from_listen p a v.now)

unfoldable pub dispatch_sync_slot_kind : Platform → Agent → Answers → Checked Agent
unfolding dispatch_kind
dispatch_sync_slot_kind p a v =
    let (b, kind) = decide_kind p a v in dispatch_kind p (record b { sync_slot_kind = kind }) v kind

unfoldable pub end_listen : Platform → Agent → ℕ → Checked Agent
end_listen p a now = if not (is_self_master p a) then check_master_dropped_out p a now else ok a

-- SyncAgentImp::preludeToLoop
unfoldable pub prelude_to_loop : Platform → Agent → ℕ → Checked Agent
unfolding reset_to_mode_maintain
prelude_to_loop p a now = do
  check (is_self_master p a)
  let b = reset_to_mode_maintain a
  ok (record b { schedule = set_end_time_of_sync_period_to_now b.schedule now })

-- SyncAgentImp::init
unfoldable pub init_agent : Platform → Agent → ℕ → Checked Agent
unfolding init_clique reset_to_mode_maintain
init_agent p a now = do
  let b = init_clique p (reset_to_mode_maintain a) now
  let c = record b { history = init_history b.history p.system_id; count_merge_sync_heard = 0 }
  check (is_self_master p c)
  ok c
