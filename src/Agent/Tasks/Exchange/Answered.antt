-- ===== src/Agent/Tasks/Exchange/Answered.antt =====
-- The whole period of a unit that listens, and to which the sync of a master comes. Code:
-- src/task/task.cpp, src/slots/sync/syncSlot.cpp, src/receiver/receiver.cpp,
-- src/messageHandler.

use sleep_sync_agent.Agent.{
  Agent, Platform, end_sync_slot_listen, listen, prelude_w_sync, start_sync_slot_after_prelude,
}
use sleep_sync_agent.Agent.Receiver.Slot.{Arrival, receive, sync_slot_handler}
use sleep_sync_agent.Agent.Receiver.Slot.Answered.{AreHearable}
use sleep_sync_agent.Agent.Receiver.Slot.Frame.{AreNoOrders}
use sleep_sync_agent.Agent.Tasks.Exchange.{carried}
use sleep_sync_agent.Agent.Tasks.Exchange.Answering.{
  HasAnswered, HasListened, IsQuiet, heard-carried, receive-Joins, receive-garbled,
  run_slot_start-Quiet,
}
use sleep_sync_agent.Agent.Tasks.Exchange.Calling.{IsAt, run_prelude-IsAt}
use sleep_sync_agent.Agent.Tasks.SyncPeriod.{
  Meetings, rest_of_period, run_next, run_next-Succeeds, sync_period,
}
use sleep_sync_agent.Agent.Tasks.Syncing.{IsSyncing, is_power_to_sync_only, receive-IsSyncing}
use sleep_sync_agent.Base.{
  List, Succeeds, Succeeds-bind, [], arith, false, ok, subst, sym, true, ℕ, ◌<◌, ◌>>=◌, ◌∷◌, ◌≡◌,
  ◌≤◌,
}
use sleep_sync_agent.Message.{SyncMessage, does_carry_sync, master_sync}
use sleep_sync_agent.Message.RoundTrip.{IsSendable}
use sleep_sync_agent.Params.{normal_sync_period_duration}
use sleep_sync_agent.Schedule.{Schedule, adjust_by_sync_msg, roll_period_forward}
use sleep_sync_agent.Schedule.Adjusting.{clock_limit}
use sleep_sync_agent.Schedule.Heeding.{Heeds}

-- The packet is one that the period can be adjusted to.
carried-AreHearable :
    (s : Schedule) (m : SyncMessage) (x : Arrival)
    → IsSendable m
    → m.type ≡ master_sync
    → Heeds s x.toa m.delta_to_next_sync_point
    → x.random_offset ≤ normal_sync_period_duration
    → AreHearable s (carried m x ∷ []) × AreNoOrders (carried m x ∷ [])
unfolding does_carry_sync
carried-AreHearable s m x v e h k = ground (arith, heard-carried m x v e)

garbled-AreHearable :
    (s : Schedule) (m : SyncMessage) (x : Arrival)
    → IsSendable m
    → m.type ≡ master_sync
    → x.crc_valid ≡ false
    → x.random_offset ≤ normal_sync_period_duration
    → AreHearable s (carried m x ∷ []) × AreNoOrders (carried m x ∷ [])
garbled-AreHearable s m x v e h k = ground (arith, heard-carried m x v e)

-- The unit hears the sync of its own or a better clique: it takes part in it, on the adjusted
-- schedule.
pub listening-Joins :
    (q : Platform) (s t : Schedule) (count id : ℕ) (c : Agent) (m : SyncMessage) (x : Arrival)
    → IsSyncing q end_sync_slot_listen c
    → IsAt s count id c
    → x.crc_valid ≡ true
    → IsSendable m
    → m.type ≡ master_sync
    → m.master_id ≤ id
    → x.random_offset ≤ normal_sync_period_duration
    → Heeds s x.toa m.delta_to_next_sync_point
    → adjust_by_sync_msg s x.toa m.delta_to_next_sync_point ≡ ok t
    → Succeeds (HasListened q t 0 m.master_id) (receive (sync_slot_handler q) c (carried m x ∷ []))
listening-Joins q s t count id c m x w on k v e better r h adjusted =
    let hears = carried-AreHearable s m x v e h r in
    ground (
      arith,
      receive-IsSyncing q c (carried m x ∷ []) w
          (subst (λ u. AreHearable u (carried m x ∷ [])) (sym on.0.0) hears.0) hears.1,
      receive-Joins q c m x t k v e (omega (arith, better, on.1)) (
          subst (λ (u : Schedule). adjust_by_sync_msg u x.toa m.delta_to_next_sync_point ≡ ok t)
            (sym on.0.0) adjusted),
    )

-- It does not, and is as it was.
pub listening-garbled :
    (q : Platform) (s : Schedule) (count id : ℕ) (c : Agent) (m : SyncMessage) (x : Arrival)
    → IsSyncing q end_sync_slot_listen c
    → IsAt s count id c
    → x.crc_valid ≡ false
    → Succeeds (HasListened q s count id) (receive (sync_slot_handler q) c (carried m x ∷ []))
listening-garbled q s count id c m x w on k =
    subst (Succeeds (HasListened q s count id)) (sym (receive-garbled q c m x k)) (w, on)

module _ (q : Platform) (f : Meetings) (xs : List Arrival) (s t : Schedule)
    (count id heard_count end_count heard_id : ℕ)
    (listens : (c : Agent)
      → IsSyncing q end_sync_slot_listen c
      → IsAt s count id c
      → Succeeds (HasListened q t heard_count heard_id) (receive (sync_slot_handler q) c xs))
    (ends : (c : Agent)
      → IsSyncing q end_sync_slot_listen c
      → IsAt t heard_count heard_id c
      → Succeeds (HasAnswered q t end_count heard_id) (run_next q c f.at_end)) where
  listen-HasAnswered :
      (c : Agent)
      → IsSyncing q end_sync_slot_listen c
      → IsAt s count id c
      → Succeeds
          (HasAnswered q t end_count heard_id)
          (receive (sync_slot_handler q) c xs >>= λ r. run_next q r.0 f.at_end)
  listen-HasAnswered = λ c w on.
      Succeeds-bind (HasListened q t heard_count heard_id) (HasAnswered q t end_count heard_id)
        (receive (sync_slot_handler q) c xs) (λ r. run_next q r.0 f.at_end) (listens c w on)
        (λ r (u, on'). ends r.0 u on')

  rest_of_period-HasAnswered :
      (c : Agent)
      → c.sync_slot_kind ≡ listen
      → IsSyncing q end_sync_slot_listen c
      → IsAt s count id c
      → Succeeds
          (HasAnswered q t end_count heard_id)
          (rest_of_period q c (record f { arrivals = xs }))
  unfolding rest_of_period
  rest_of_period-HasAnswered = λ c k w on. ground (arith, listen-HasAnswered c w on)

-- A whole period of a unit that does not send, by what it does while it listens and when that ends.
pub sync_period-HasAnswered :
    (q : Platform) (b : Agent) (f : Meetings) (xs : List Arrival) (t : Schedule)
    (heard_count end_count heard_id : ℕ)
    → IsSyncing q prelude_w_sync b
    → IsQuiet q b.clique_master_id f
    → b.schedule.end_time_of_sync_period < clock_limit
    → is_power_to_sync_only f.at_prelude.power ≡ true
    → f.at_start.is_mail ≡ false
    → let s = roll_period_forward b.schedule in
      ((c : Agent)
        → IsSyncing q end_sync_slot_listen c
        → IsAt s b.count_sync_slots_without_sync_msg b.clique_master_id c
        → Succeeds (HasListened q t heard_count heard_id) (receive (sync_slot_handler q) c xs))
      → ((c : Agent)
          → IsSyncing q end_sync_slot_listen c
          → IsAt t heard_count heard_id c
          → Succeeds (HasAnswered q t end_count heard_id) (run_next q c f.at_end))
      → Succeeds (HasAnswered q t end_count heard_id) (sync_period q b (record f { arrivals = xs }))
unfolding sync_period
sync_period-HasAnswered q b f xs t heard_count end_count heard_id v quiet far power no_mail listens
      ends =
    let count = b.count_sync_slots_without_sync_msg in
    let id = b.clique_master_id in
    let s = roll_period_forward b.schedule in
    let e = record f { arrivals = xs } in
    let Q = HasAnswered q t end_count heard_id in
    let P =
      λ (c : Agent). IsSyncing q start_sync_slot_after_prelude c × IsAt b.schedule count id c in
    let R = λ (c : Agent).
      (c.sync_slot_kind ≡ listen) × IsSyncing q end_sync_slot_listen c × IsAt s count id c in
    Succeeds-bind P Q (run_next q b f.at_prelude)
      (λ c. run_next q c f.at_start >>= λ d. rest_of_period q d e)
      (run_next-Succeeds P q b f.at_prelude prelude_w_sync v.comes_next
        (run_prelude-IsAt q b f.at_prelude v power))
      (λ c (w, on).
        Succeeds-bind R Q (run_next q c f.at_start) (λ d. rest_of_period q d e)
          (run_next-Succeeds R q c f.at_start start_sync_slot_after_prelude w.comes_next
            (run_slot_start-Quiet q b.schedule count id c f w on far no_mail quiet))
          (λ d (k, u, on').
            rest_of_period-HasAnswered q f xs s t count id heard_count end_count heard_id listens
              ends d k u on'))
