-- ===== src/Agent/SyncSlot/Kinds.antt =====
-- Who sends what in a sync slot. Code: src/slots/sync/syncSlotProperty.cpp, src/clique/clique.cpp,
-- src/policy/syncPolicy.
use native.Mathlib.Omega.{arith}
use sleep_sync_agent.Agent.{Agent, Platform, SyncSlotKind, listen, send_sync}
use sleep_sync_agent.Agent.Control.{should_send_control_sync}
use sleep_sync_agent.Agent.Mastership.{is_self_master, should_transmit_sync}
use sleep_sync_agent.Agent.SyncSlot.{Answers, decide_kind}
use sleep_sync_agent.Base.{false, true, ◌↔◌, ◌≡◌, ◌≢◌, ◌⊎◌}
use sleep_sync_agent.Clique.XmitPolicy.{policy_should_transmit_sync}
use sleep_sync_agent.Network.SendRepeater.{should_send}

-- A slave never sends a plain sync. A master whose alarm is due, in the advanced stage, never
-- listens. Work is sent just if the app has queued it and no control message is due, and a control
-- message only while the repeater is active.
pub decide_kind_lem :
    (p : Platform) (a : Agent) (v : Answers)
    → let kind = (decide_kind p a v).1 in
      ((kind ≢ send_sync) ⊎ (is_self_master p a ≡ true))
      × ((kind ≢ listen)
          ⊎ (is_self_master p a ≡ false)
          ⊎ (a.policy.is_advanced_stage ≡ false)
          ⊎ (v.alarm ≡ false))
      × (kind ≡ SyncSlotKind.send_control_sync
          ↔ (a.repeater.is_active ≡ true) × (v.control_toss ≡ true))
      × (kind ≡ SyncSlotKind.send_work_sync
          ↔ (v.is_mail ≡ true) × (kind ≢ SyncSlotKind.send_control_sync))
unfolding decide_kind should_transmit_sync policy_should_transmit_sync should_send_control_sync
    should_send
decide_kind_lem p a v = ground arith
