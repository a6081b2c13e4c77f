-- ===== src/Agent/Tasks/Exchange/Calling.antt =====
-- The period of a master that sends its sync. Code: src/task/task.cpp,
-- src/schedule/syncSchedule.cpp, src/slots/sync/syncSlot.cpp, src/modules/syncSender.cpp.

use sleep_sync_agent.Agent.{
  Agent, Platform, end_sync_slot_send, prelude_w_sync, send_sync, send_sync_task,
  start_sync_slot_after_prelude, sync_only,
}
use sleep_sync_agent.Agent.Control.{should_send_control_sync}
use sleep_sync_agent.Agent.Mastership.{should_transmit_sync}
use sleep_sync_agent.Agent.Modes.{reset_work_state}
use sleep_sync_agent.Agent.Sender.{make_sync, send_master_sync}
use sleep_sync_agent.Agent.SyncSchedule.{
  sync_send_task, sync_slot_end_from_listen, sync_slot_end_from_send,
}
use sleep_sync_agent.Agent.SyncSlot.{
  Answers, decide_kind, dispatch_sync_slot_kind, prelude_to_sync_period,
}
use sleep_sync_agent.Agent.Tasks.{run, run_send_sync, run_start_sync_slot_after_prelude}
use sleep_sync_agent.Agent.Tasks.Exchange.Keeping.{
  KeepsIfOk, Succeeds-KeepsIfOk, run_prelude-KeepsIfOk, schedule_non_sync_task-KeepsIfOk,
}
use sleep_sync_agent.Agent.Tasks.Syncing.{
  IsOn, IsSyncing, is_power_to_sync_only, run_end_send-IsSyncing, run_prelude-IsSyncing,
}
use sleep_sync_agent.Base.{
  List, Succeeds, Succeeds-map, [], arith, false, subst, sym, true, ℕ, ◌+◌, ◌<◌, ◌^◌, ◌∙◌, ◌∷◌, ◌≡◌,
  ◌≤◌,
}
use sleep_sync_agent.Clique.XmitPolicy.{policy_should_transmit_sync}
use sleep_sync_agent.Message.{SyncMessage, does_carry_sync, master_sync}
use sleep_sync_agent.Message.MessageFactory.{init_sync_message}
use sleep_sync_agent.Message.RoundTrip.{IsSendable}
use sleep_sync_agent.Network.Granularity.{get_raw}
use sleep_sync_agent.Params.{normal_sync_period_duration, send_latency, virtual_slot_duration}
use sleep_sync_agent.Schedule.{Schedule, roll_period_forward}
use sleep_sync_agent.Schedule.Adjusting.{clock_limit}
use sleep_sync_agent.Schedule.SyncOffset.{calculate, calculate-eq}
use sleep_sync_agent.TimeMath.{TimeLaws}

-- A sync of that master, by that schedule at that time, which fits the wire.
pub record IsCall (p : Platform) (s : Schedule) (now : ℕ) (m : SyncMessage) : Type 0 where
  pub type : m.type ≡ master_sync
  pub master : m.master_id ≡ p.system_id
  pub delta : m.delta_to_next_sync_point ≡ calculate p.time p.chip s now
  pub sendable : IsSendable m

abbrev pub IsLast : (SyncMessage → Type 0) → Agent → Type 0
IsLast P a = elim a.sent [ [] ↦ ⊥ | m ∷ ms ↦ P m ]

-- A schedule, a number of silent sync slots at most, and a clique.
abbrev pub IsAt : Schedule → ℕ → ℕ → Agent → Type 0
IsAt s count id a = IsOn s count a × (a.clique_master_id ≡ id)

pub run_prelude-IsAt :
    (p : Platform) (a : Agent) (v : Answers)
    → IsSyncing p prelude_w_sync a
    → is_power_to_sync_only v.power ≡ true
    → Succeeds
        (λ b.
          IsSyncing p start_sync_slot_after_prelude b
          × IsAt a.schedule a.count_sync_slots_without_sync_msg a.clique_master_id b)
        (run p a v prelude_w_sync)
run_prelude-IsAt p a v h k =
    ground (arith, run_prelude-IsSyncing p a v h k, run_prelude-KeepsIfOk p a v h.only_syncs k)

-- A master whose policy lets it send, with nothing from its app, begins to send.
pub run_slot_start-Calling :
    (p : Platform) (s : Schedule) (count : ℕ) (a : Agent) (v : Answers)
    → IsSyncing p start_sync_slot_after_prelude a
    → IsAt s count p.system_id a
    → s.end_time_of_sync_period < clock_limit
    → v.is_mail ≡ false
    → v.alarm ≡ true
    → v.sync_toss ≡ true
    → Succeeds
        (λ b.
          (b.sync_slot_kind ≡ send_sync)
          × IsSyncing p send_sync_task b
          × IsAt (roll_period_forward s) count p.system_id b)
        (run p a v start_sync_slot_after_prelude)
unfolding run run_start_sync_slot_after_prelude dispatch_sync_slot_kind decide_kind
    should_transmit_sync policy_should_transmit_sync should_send_control_sync sync_send_task
    sync_slot_end_from_listen prelude_to_sync_period reset_work_state roll_period_forward
run_slot_start-Calling p s count a v h on k m r t = ground arith

pub run_send-Calling :
    (p : Platform) (s : Schedule) (count : ℕ) (a : Agent) (v : Answers)
    → TimeLaws p.time
    → IsSyncing p send_sync_task a
    → a.sync_slot_kind ≡ send_sync
    → IsAt s count p.system_id a
    → p.system_id < 2 ^ 48
    → v.now + send_latency p.chip ≤ s.end_time_of_sync_period
    → s.end_time_of_sync_period ≤ v.now + normal_sync_period_duration
    → Succeeds
        (λ b.
          IsSyncing p end_sync_slot_send b
          × IsAt s count p.system_id b
          × IsLast (IsCall p s v.now) b)
        (run p a v send_sync_task)
unfolding run run_send_sync send_master_sync make_sync init_sync_message sync_slot_end_from_send
    does_carry_sync get_raw
run_send-Calling p s count a v laws h k on fits early late =
    ground (arith, calculate-eq p.time laws p.chip s v.now early (omega arith))

IsLast-same : (P : SyncMessage → Type 0) (a b : Agent) → b.sent ≡ a.sent → IsLast P a → IsLast P b
IsLast-same P a b e h =
    subst (λ (ms : List SyncMessage). elim ms [ [] ↦ ⊥ | m ∷ rest_sent ↦ P m ]) (sym e) h

run_end_send-KeepsIfOk :
    (p : Platform) (a : Agent) (v : Answers)
    → a.mode ≡ sync_only
    → KeepsIfOk a (run p a v end_sync_slot_send)
unfolding run
run_end_send-KeepsIfOk p a v m = ground (arith, schedule_non_sync_task-KeepsIfOk p a v m)

pub run_end_send-Calling :
    (p : Platform) (s : Schedule) (count : ℕ) (a : Agent) (v : Answers) (P : SyncMessage → Type 0)
    → TimeLaws p.time
    → IsSyncing p end_sync_slot_send a
    → IsAt s count p.system_id a
    → IsLast P a
    → v.now + virtual_slot_duration ≤ s.end_time_of_sync_period
    → s.end_time_of_sync_period < v.now + 2 ^ 32
    → Succeeds
        (λ b. IsSyncing p prelude_w_sync b × IsAt s count p.system_id b × IsLast P b)
        (run p a v end_sync_slot_send)
run_end_send-Calling p s count a v P laws h on said early near =
    let Q = λ (b : Agent). IsSyncing p prelude_w_sync b × IsOn s count b in
    Succeeds-map (λ b. Q b × (b.clique_master_id ≡ a.clique_master_id) × (b.sent ≡ a.sent))
      (λ b. IsSyncing p prelude_w_sync b × IsAt s count p.system_id b × IsLast P b)
      (run p a v end_sync_slot_send)
      (Succeeds-KeepsIfOk Q a (run p a v end_sync_slot_send)
        (run_end_send-IsSyncing p s count a v laws h on.0 early near)
        (run_end_send-KeepsIfOk p a v h.only_syncs))
      (λ b (w, id, same). (w.0, (w.1, id ∙ on.1), IsLast-same P a b same said))
