-- ===== src/Agent/Control/Upstream.antt =====
-- Which control messages can be sent at all. Code: src/network/intraCliqueManager.cpp,
-- src/message/messageFactory.h, src/provisioning/workProvisioner.cpp.
use native.Mathlib.Omega.{arith}
use sleep_sync_agent.Agent.{Agent, Platform}
use sleep_sync_agent.Agent.Control.{
  do_downstream_clique_size_change, do_downstream_scatter, do_upstream_clique_size_change,
  do_upstream_scatter, do_upstream_work_cycle, do_upstream_work_time,
  handle_net_granularity_provisioning, handle_scatter_provisioning, provision_work_cycle,
  provision_work_time,
}
use sleep_sync_agent.Agent.Mastership.{is_self_master}
use sleep_sync_agent.Agent.Sender.{send_control_sync}
use sleep_sync_agent.Base.{Checked, failed, false, if◌then◌else◌, ok, u8, ℕ, ◌≡◌, ◌≢◌, ◌≤◌}
use sleep_sync_agent.Message.{
  MessageType, SyncMessage, control_net_granularity, control_scatter_clique, does_carry_sync,
  master_sync,
}
use sleep_sync_agent.Message.MessageFactory.{init_sync_message}
use sleep_sync_agent.Network.Granularity.{NetGranularity, get_from_raw, get_raw}
use sleep_sync_agent.Network.SendRepeater.{start}
use sleep_sync_agent.Params.{normal_sync_period_duration}
use sleep_sync_agent.Schedule.SyncOffset.{calculate}

-- While it repeats nothing, a slave that is provisioned with a work time or a work cycle starts to
-- repeat a message that it can send at no time: the assertion that it carries sync fails.
pub provision_work-failed :
    (p : Platform) (convert : ℕ → ℕ) (a : Agent) (message : SyncMessage) (value now : ℕ)
    → is_self_master p a ≡ false
    → a.repeater.is_active ≡ false
    → (send_control_sync p (provision_work_time p convert a value) message now ≡ failed)
      × (send_control_sync p (provision_work_cycle p a value) message now ≡ failed)
unfolding send_control_sync provision_work_time provision_work_cycle do_upstream_work_time
    do_upstream_work_cycle start init_sync_message does_carry_sync
provision_work-failed p convert a message value now s i = ground arith

-- What is sent is a message of the unit's own clique, with that type, payload and offset.
abbrev pub Sends : Agent → MessageType → ℕ → ℕ → Checked SyncMessage → Type 0
Sends a type work offset (ok m) =
    (m.type ≡ type)
    × (m.master_id ≡ a.clique_master_id)
    × (m.work ≡ work)
    × (m.delta_to_next_sync_point ≡ offset)
Sends a type work offset failed = ⊥

-- While it repeats nothing, a unit that is provisioned with a valid granularity, or to scatter,
-- can send the message that it starts to repeat, whenever its sync offset is in a period: a slave
-- sends the control message, a master a sync message with the new granularity, or the scatter
-- message.
pub provisioning-Sends :
    (p : Platform) (a : Agent) (message : SyncMessage) (value now : ℕ)
    → a.repeater.is_active ≡ false
    → get_from_raw (u8 value) ≢ NetGranularity.invalid
    → calculate p.time p.chip a.schedule now ≤ normal_sync_period_duration
    → Sends a
        (if is_self_master p a then master_sync else control_net_granularity)
        (get_raw (get_from_raw (u8 value)))
        (calculate p.time p.chip a.schedule now)
        (send_control_sync p (handle_net_granularity_provisioning p a value) message now)
      × Sends a control_scatter_clique 1
          (calculate p.time p.chip a.schedule now)
          (send_control_sync p (handle_scatter_provisioning p a) message now)
unfolding send_control_sync handle_net_granularity_provisioning handle_scatter_provisioning
    do_upstream_clique_size_change do_downstream_clique_size_change do_upstream_scatter
    do_downstream_scatter start init_sync_message does_carry_sync get_raw get_from_raw
provisioning-Sends p a message value now i v o = ground arith
