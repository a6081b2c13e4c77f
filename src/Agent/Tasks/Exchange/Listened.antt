-- ===== src/Agent/Tasks/Exchange/Listened.antt =====
-- The periods of a unit that listens: a packet comes, or none. Code: src/task/task.cpp,
-- src/slots/sync/syncSlot.cpp, src/receiver/receiver.cpp, src/clique.

use sleep_sync_agent.Agent.{Agent, Platform, end_sync_slot_listen, prelude_w_sync}
use sleep_sync_agent.Agent.Receiver.Slot.{Arrival, receive, sync_slot_handler}
use sleep_sync_agent.Agent.Tasks.Exchange.{carried}
use sleep_sync_agent.Agent.Tasks.Exchange.Answered.{sync_period-HasAnswered}
use sleep_sync_agent.Agent.Tasks.Exchange.Answering.{
  HasAnswered, HasListened, IsAnswering, IsListening, IsQuiet, run_end_listen-HasAnswered,
  run_end_listen-HasAnswered_of_master,
}
use sleep_sync_agent.Agent.Tasks.Exchange.Calling.{IsAt}
use sleep_sync_agent.Agent.Tasks.SyncPeriod.{Meetings, sync_period}
use sleep_sync_agent.Agent.Tasks.Syncing.{IsSyncing}
use sleep_sync_agent.Base.{Succeeds, [], arith, false, inr, ℕ, ◌+◌, ◌<◌, ◌∙◌, ◌∷◌, ◌≡◌, ◌≤◌}
use sleep_sync_agent.Message.{SyncMessage}
use sleep_sync_agent.Params.{max_missing_syncs_per_dropout, normal_sync_period_duration}
use sleep_sync_agent.Schedule.{Schedule, roll_period_forward}
use sleep_sync_agent.Schedule.Adjusting.{clock_limit, roll_period_forward-IsScheduled}
use sleep_sync_agent.TimeMath.{TimeLaws}

-- The period of a slave or a quiet master, to which the packet of a master comes.
pub sync_period-HasAnswered_heard :
    (q : Platform) (b : Agent) (f : Meetings) (m : SyncMessage) (x : Arrival) (t : Schedule)
    (heard_count heard_id : ℕ)
    → TimeLaws q.time
    → IsSyncing q prelude_w_sync b
    → IsQuiet q b.clique_master_id f
    → b.schedule.end_time_of_sync_period < clock_limit
    → let s = roll_period_forward b.schedule in
      IsAnswering s f x
      → s.end_time_of_sync_period ≤ t.end_time_of_sync_period
      → t.end_time_of_sync_period ≤ s.end_time_of_sync_period + normal_sync_period_duration
      → heard_count < max_missing_syncs_per_dropout
      → ((c : Agent)
          → IsSyncing q end_sync_slot_listen c
          → IsAt s b.count_sync_slots_without_sync_msg b.clique_master_id c
          → Succeeds
              (HasListened q t heard_count heard_id)
              (receive (sync_slot_handler q) c (carried m x ∷ [])))
      → Succeeds
          (HasAnswered q t (heard_count + 1) heard_id)
          (sync_period q b (record f { arrivals = carried m x ∷ [] }))
sync_period-HasAnswered_heard q b f m x t heard_count heard_id laws v quiet far o later near few
      listens =
    let n = roll_period_forward-IsScheduled b.schedule far in
    sync_period-HasAnswered q b f (carried m x ∷ []) t heard_count (heard_count + 1) heard_id v
      quiet far o.power o.no_mail listens
      (λ c w on.
        run_end_listen-HasAnswered q t heard_count heard_id c f.at_end laws w on few
          (omega (arith, later, o.ends_before)) (omega (arith, near, o.ends_after, n.not_too_long)))

-- The period of a slave to which no packet comes.
pub sync_period-HasAnswered_missed :
    (q : Platform) (b : Agent) (f : Meetings) (count : ℕ)
    → TimeLaws q.time
    → IsSyncing q prelude_w_sync b
    → IsQuiet q b.clique_master_id f
    → b.schedule.end_time_of_sync_period < clock_limit
    → IsListening (roll_period_forward b.schedule) f
    → b.count_sync_slots_without_sync_msg ≤ count
    → count < max_missing_syncs_per_dropout
    → Succeeds
        (HasAnswered q (roll_period_forward b.schedule) (count + 1) b.clique_master_id)
        (sync_period q b (record f { arrivals = [] }))
unfolding receive
sync_period-HasAnswered_missed q b f count laws v quiet far o counted few =
    let s = roll_period_forward b.schedule in
    let n = roll_period_forward-IsScheduled b.schedule far in
    sync_period-HasAnswered q b f [] s count (count + 1) b.clique_master_id v quiet far o.power
      o.no_mail (λ c w on. (w, ((on.0.0, omega (arith, on.0.1, counted)), on.1)))
      (λ c w on.
        run_end_listen-HasAnswered q s count b.clique_master_id c f.at_end laws w on few
          o.ends_before (omega (arith, o.ends_after, n.not_too_long)))

-- The period of a master that its policy does not let send, and to which no packet comes.
pub sync_period-HasAnswered_silent :
    (p : Platform) (a : Agent) (e : Meetings)
    → TimeLaws p.time
    → IsSyncing p prelude_w_sync a
    → a.clique_master_id ≡ p.system_id
    → e.at_start.alarm ≡ false
    → e.at_start.sync_toss ≡ false
    → a.schedule.end_time_of_sync_period < clock_limit
    → IsListening (roll_period_forward a.schedule) e
    → Succeeds
        (HasAnswered p
          (roll_period_forward a.schedule)
          a.count_sync_slots_without_sync_msg
          p.system_id)
        (sync_period p a (record e { arrivals = [] }))
unfolding receive
sync_period-HasAnswered_silent p a e laws v own alarm toss far o =
    let count = a.count_sync_slots_without_sync_msg in
    let s = roll_period_forward a.schedule in
    let n = roll_period_forward-IsScheduled a.schedule far in
    sync_period-HasAnswered p a e [] s count count p.system_id v (inr (alarm, toss)) far o.power
      o.no_mail (λ c w on. (w, (on.0, on.1 ∙ own)))
      (λ c w on.
        run_end_listen-HasAnswered_of_master p s count c e.at_end laws w on o.ends_before
          (omega (arith, o.ends_after, n.not_too_long)))
