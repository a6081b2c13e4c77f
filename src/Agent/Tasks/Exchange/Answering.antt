-- ===== src/Agent/Tasks/Exchange/Answering.antt =====
-- The period of a unit that listens, and to which the sync of a master comes. Code:
-- src/task/task.cpp, src/slots/sync/syncSlot.cpp, src/receiver/receiver.cpp,
-- src/messageHandler.

use sleep_sync_agent.Agent.{
  Agent, Platform, end_sync_slot_listen, listen, prelude_w_sync, start_sync_slot_after_prelude,
  sync_only,
}
use sleep_sync_agent.Agent.Behaviour.SyncSlotHandler.{HandlingResult, handle_in_sync_slot}
use sleep_sync_agent.Agent.Control.{should_send_control_sync}
use sleep_sync_agent.Agent.Mastership.{should_transmit_sync}
use sleep_sync_agent.Agent.Modes.{reset_work_state}
use sleep_sync_agent.Agent.Receiver.{dispatch, handle_unserialized}
use sleep_sync_agent.Agent.Receiver.Joining.{HasJoined, handle_in_sync_slot-HasJoined}
use sleep_sync_agent.Agent.Receiver.Slot.{
  Arrival, is_keep_listening, on_msg_received, receive, sync_slot_handler,
}
use sleep_sync_agent.Agent.Reversion.{check_master_dropped_out}
use sleep_sync_agent.Agent.SyncSchedule.{sync_send_task, sync_slot_end_from_listen}
use sleep_sync_agent.Agent.SyncSlot.{
  Answers, decide_kind, dispatch_sync_slot_kind, end_listen, prelude_to_sync_period,
}
use sleep_sync_agent.Agent.Tasks.{run, run_start_sync_slot_after_prelude, schedule_non_sync_task}
use sleep_sync_agent.Agent.Tasks.Exchange.{carried}
use sleep_sync_agent.Agent.Tasks.Exchange.Calling.{IsAt}
use sleep_sync_agent.Agent.Tasks.Exchange.Keeping.{
  KeepsIfOk, Succeeds-KeepsIfOk, schedule_non_sync_task-KeepsIfOk,
}
use sleep_sync_agent.Agent.Tasks.SyncPeriod.{Meetings, run_next, run_next-Succeeds}
use sleep_sync_agent.Agent.Tasks.Syncing.{
  IsOn, IsSyncing, is_power_to_sync_only, run_end_listen-IsSyncing,
  schedule_non_sync_task-IsSyncing,
}
use sleep_sync_agent.Base.{
  Bool, Checked, Succeeds, Succeeds-map, [], arith, false, if◌then◌else◌, ok, refl, subst, sym,
  true, ℕ, ◌+◌, ◌<◌, ◌>>=◌, ◌^◌, ◌∙◌, ◌∷◌, ◌≡◌, ◌≢◌, ◌≤◌, ◌⊎◌,
}
use sleep_sync_agent.Clique.DropoutMonitor.{is_dropout}
use sleep_sync_agent.Clique.XmitPolicy.{policy_should_transmit_sync}
use sleep_sync_agent.Message.{SyncMessage, master_sync, message_type_from_raw, raw_of_message_type}
use sleep_sync_agent.Message.RoundTrip.{IsSendable, read_offset, read_type, unserialize-serialize}
use sleep_sync_agent.Message.Serializer.{unserialize_offset, unserialize_type}
use sleep_sync_agent.Params.{
  max_missing_syncs_per_dropout, normal_sync_period_duration, virtual_slot_duration,
}
use sleep_sync_agent.Schedule.{Schedule, adjust_by_sync_msg, roll_period_forward}
use sleep_sync_agent.Schedule.Adjusting.{clock_limit}
use sleep_sync_agent.TimeMath.{TimeLaws}

-- There is power to sync but not to fish, the app has nothing to send, the packet comes within the
-- period, Random keeps to its range, and the slot ends a prelude before the period's normal end.
pub record IsAnswering (s : Schedule) (f : Meetings) (x : Arrival) : Type 0 where
  pub power : is_power_to_sync_only f.at_prelude.power ≡ true
  pub no_mail : f.at_start.is_mail ≡ false
  pub comes_after : s.start_time_of_sync_period ≤ x.toa
  pub comes_before : x.toa ≤ s.end_time_of_sync_period
  pub random_offset : x.random_offset ≤ normal_sync_period_duration
  pub ends_after : s.start_time_of_sync_period ≤ f.at_end.now
  pub ends_before : f.at_end.now + virtual_slot_duration ≤ s.end_time_of_sync_period

-- A slave, or a master that its policy does not let send.
abbrev pub IsQuiet : Platform → ℕ → Meetings → Type 0
IsQuiet q id f = (id ≢ q.system_id) ⊎ (f.at_start.alarm ≡ false) × (f.at_start.sync_toss ≡ false)

pub run_slot_start-Quiet :
    (q : Platform) (s : Schedule) (count id : ℕ) (b : Agent) (f : Meetings)
    → IsSyncing q start_sync_slot_after_prelude b
    → IsAt s count id b
    → s.end_time_of_sync_period < clock_limit
    → f.at_start.is_mail ≡ false
    → IsQuiet q id f
    → Succeeds
        (λ c.
          (c.sync_slot_kind ≡ listen)
          × IsSyncing q end_sync_slot_listen c
          × IsAt (roll_period_forward s) count id c)
        (run q b f.at_start start_sync_slot_after_prelude)
unfolding run run_start_sync_slot_after_prelude dispatch_sync_slot_kind decide_kind
    should_transmit_sync policy_should_transmit_sync should_send_control_sync sync_send_task
    sync_slot_end_from_listen prelude_to_sync_period reset_work_state roll_period_forward
run_slot_start-Quiet q s count id b f h on k m r = ground arith

-- What a sendable message says to its receiver.
pub heard-carried :
    (m : SyncMessage) (x : Arrival)
    → IsSendable m
    → m.type ≡ master_sync
    → (unserialize_type (carried m x).buffer ≡ master_sync)
      × (unserialize_offset (carried m x).buffer ≡ m.delta_to_next_sync_point)
unfolding unserialize_type unserialize_offset message_type_from_raw raw_of_message_type
heard-carried m x v e = ground (arith, read_type m x.buffer v, read_offset m x.buffer v)

on_msg_received-carried :
    (q : Platform) (c : Agent) (m : SyncMessage) (x : Arrival)
    → x.crc_valid ≡ true
    → IsSendable m
    → m.type ≡ master_sync
    → on_msg_received (sync_slot_handler q) c (carried m x)
      ≡ handle_in_sync_slot q c
          (record m {
            type = master_sync;
            transmitted_signal_strength = x.message.transmitted_signal_strength;
          })
          x.toa
          x.now
          x.random_offset
unfolding on_msg_received dispatch handle_unserialized message_type_from_raw raw_of_message_type
on_msg_received-carried q c m x k v e = ground (arith, unserialize-serialize m x.buffer v x.message)

-- Once it has joined, the unit stops to listen.
joined-Succeeds :
    (q : Platform) (id : ℕ) (t : Schedule) (r : Checked (Agent × HandlingResult))
    → HasJoined id t r
    → Succeeds
        (λ h. IsAt t 0 id h.0)
        (r >>= λ h.
          if is_keep_listening h.1 then receive (sync_slot_handler q) h.0 [] else ok (h.0, false))
joined-Succeeds q id t r h = ground arith

-- The packet of a clique that is its own or a better one: the unit is in it.
pub receive-Joins :
    (q : Platform) (c : Agent) (m : SyncMessage) (x : Arrival) (t : Schedule)
    → x.crc_valid ≡ true
    → IsSendable m
    → m.type ≡ master_sync
    → m.master_id ≤ c.clique_master_id
    → adjust_by_sync_msg c.schedule x.toa m.delta_to_next_sync_point ≡ ok t
    → Succeeds (λ r. IsAt t 0 m.master_id r.0) (receive (sync_slot_handler q) c (carried m x ∷ []))
unfolding receive
receive-Joins q c m x t k v e better adjusted =
    let received = record m {
      type = master_sync;
      transmitted_signal_strength = x.message.transmitted_signal_strength;
    } in
    joined-Succeeds q m.master_id t (on_msg_received (sync_slot_handler q) c (carried m x)) (
      subst (HasJoined m.master_id t) (sym (on_msg_received-carried q c m x k v e)) (
        handle_in_sync_slot-HasJoined q c received t x.toa x.now x.random_offset refl better
          adjusted))

-- A garbled packet changes nothing.
pub receive-garbled :
    (q : Platform) (c : Agent) (m : SyncMessage) (x : Arrival)
    → x.crc_valid ≡ false
    → receive (sync_slot_handler q) c (carried m x ∷ []) ≡ ok (c, true)
unfolding receive on_msg_received dispatch
receive-garbled q c m x k = ground arith

run_end_listen-KeepsIfOk :
    (q : Platform) (a : Agent) (v : Answers)
    → a.mode ≡ sync_only
    → a.count_sync_slots_without_sync_msg < max_missing_syncs_per_dropout
    → KeepsIfOk a (run q a v end_sync_slot_listen)
unfolding run end_listen check_master_dropped_out is_dropout
run_end_listen-KeepsIfOk q a v m h = ground (
  arith,
  schedule_non_sync_task-KeepsIfOk q a v m,
  schedule_non_sync_task-KeepsIfOk q
      (record a { count_sync_slots_without_sync_msg = a.count_sync_slots_without_sync_msg + 1 }) v
      m,
)

-- The unit is at its next period's prelude, on that schedule, in that clique.
abbrev pub HasAnswered : Platform → Schedule → ℕ → ℕ → Agent → Type 0
HasAnswered q t count id b = IsSyncing q prelude_w_sync b × IsAt t count id b

-- What the listening leaves.
abbrev pub HasListened : Platform → Schedule → ℕ → ℕ → Agent × Bool → Type 0
HasListened q t count id r = IsSyncing q end_sync_slot_listen r.0 × IsAt t count id r.0

pub run_end_listen-HasAnswered :
    (q : Platform) (t : Schedule) (count id : ℕ) (b : Agent) (v : Answers)
    → TimeLaws q.time
    → IsSyncing q end_sync_slot_listen b
    → IsAt t count id b
    → count < max_missing_syncs_per_dropout
    → v.now + virtual_slot_duration ≤ t.end_time_of_sync_period
    → t.end_time_of_sync_period < v.now + 2 ^ 32
    → Succeeds (HasAnswered q t (count + 1) id) (run_next q b v)
run_end_listen-HasAnswered q t count id b v laws w on few early near =
    let Q = λ (c : Agent).
      IsSyncing q prelude_w_sync c × IsOn b.schedule (b.count_sync_slots_without_sync_msg + 1) c in
    run_next-Succeeds (HasAnswered q t (count + 1) id) q b v end_sync_slot_listen w.comes_next (
      Succeeds-map (λ c. Q c × (c.clique_master_id ≡ b.clique_master_id) × (c.sent ≡ b.sent))
        (HasAnswered q t (count + 1) id) (run q b v end_sync_slot_listen)
        (Succeeds-KeepsIfOk Q b (run q b v end_sync_slot_listen)
          (run_end_listen-IsSyncing q b v laws w (omega (arith, on.0.1)) (ground (arith, on.0.0))
            (ground (arith, on.0.0)))
          (run_end_listen-KeepsIfOk q b v w.only_syncs (omega (arith, on.0.1))))
        (λ c (u, id', same). (u.0, ((u.1.0 ∙ on.0.0, omega (arith, u.1.1, on.0.1)), id' ∙ on.1))))

run_end_listen_of_master :
    (q : Platform) (b : Agent) (v : Answers)
    → b.clique_master_id ≡ q.system_id
    → run q b v end_sync_slot_listen ≡ schedule_non_sync_task q b v
unfolding run end_listen
run_end_listen_of_master q b v e = ground arith

-- A master that has only listened counts no silent slot.
pub run_end_listen-HasAnswered_of_master :
    (q : Platform) (t : Schedule) (count : ℕ) (b : Agent) (v : Answers)
    → TimeLaws q.time
    → IsSyncing q end_sync_slot_listen b
    → IsAt t count q.system_id b
    → v.now + virtual_slot_duration ≤ t.end_time_of_sync_period
    → t.end_time_of_sync_period < v.now + 2 ^ 32
    → Succeeds (HasAnswered q t count q.system_id) (run_next q b v)
run_end_listen-HasAnswered_of_master q t count b v laws w on early near =
    let Q = λ (c : Agent). IsSyncing q prelude_w_sync c × IsOn t count c in
    let scheduled = schedule_non_sync_task q b v in
    run_next-Succeeds (HasAnswered q t count q.system_id) q b v end_sync_slot_listen w.comes_next (
      subst (Succeeds (HasAnswered q t count q.system_id))
        (sym (run_end_listen_of_master q b v on.1))
        (Succeeds-map (λ c. Q c × (c.clique_master_id ≡ b.clique_master_id) × (c.sent ≡ b.sent))
          (HasAnswered q t count q.system_id) scheduled
          (Succeeds-KeepsIfOk Q b scheduled
            (schedule_non_sync_task-IsSyncing q t count b v laws w.ready w.only_syncs w.calm
              w.prelude on.0 early near)
            (schedule_non_sync_task-KeepsIfOk q b v w.only_syncs))
          (λ c (u, id, same). (u.0, (u.1, id ∙ on.1)))))

-- What a unit that listens needs, whatever comes.
pub record IsListening (s : Schedule) (f : Meetings) : Type 0 where
  pub power : is_power_to_sync_only f.at_prelude.power ≡ true
  pub no_mail : f.at_start.is_mail ≡ false
  pub ends_after : s.start_time_of_sync_period ≤ f.at_end.now
  pub ends_before : f.at_end.now + virtual_slot_duration ≤ s.end_time_of_sync_period
