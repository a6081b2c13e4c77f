-- ===== src/Agent/Tasks/SyncPeriod.antt =====
-- Whole sync periods of a unit that only syncs. Code: src/task/task.cpp,
-- src/schedule/syncSchedule.cpp, src/slots/sync/syncSlot.cpp, src/receiver/receiver.cpp,
-- src/messageHandler.

use sleep_sync_agent.Agent.{
  Agent, Platform, SyncSlotKind, Task, end_sync_slot_listen, end_sync_slot_send, listen,
  prelude_w_sync, send_sync, send_sync_task, start_sync_slot_after_prelude,
}
use sleep_sync_agent.Agent.Receiver.Slot.{Arrival, receive, sync_slot_handler}
use sleep_sync_agent.Agent.Receiver.Slot.Answered.{AreHearable}
use sleep_sync_agent.Agent.Receiver.Slot.Frame.{AreNoOrders}
use sleep_sync_agent.Agent.SyncSlot.{Answers}
use sleep_sync_agent.Agent.Tasks.{run}
use sleep_sync_agent.Agent.Tasks.OneNext.{next_task}
use sleep_sync_agent.Agent.Tasks.Syncing.{
  IsOn, IsSlotBegun, IsSyncing, is_power_to_sync_only, receive-IsSyncing, run_end_listen-IsSyncing,
  run_end_send-IsSyncing, run_prelude-IsSyncing, run_send-IsSyncing, run_slot_start-IsSyncing,
}
use sleep_sync_agent.Base.{
  Checked, List, Option, Succeeds, Succeeds-bind, ap, arith, failed, none, refl, some, subst, sym,
  true, ℕ, ◌+◌, ◌<◌, ◌>>=◌, ◌∙◌, ◌≡◌, ◌≤◌, ◌⊎◌,
}
use sleep_sync_agent.Network.SendRepeater.{start}
use sleep_sync_agent.Params.{max_missing_syncs_per_dropout, virtual_slot_duration}
use sleep_sync_agent.Schedule.{Schedule, roll_period_forward}
use sleep_sync_agent.Schedule.Adjusting.{IsScheduled, clock_limit, roll_period_forward-IsScheduled}
use sleep_sync_agent.TimeMath.{TimeLaws}

-- The timer runs the task that was scheduled last.
abbrev pub run_scheduled : Platform → Agent → Answers → Option Task → Checked Agent
run_scheduled p a v none = failed
run_scheduled p a v (some task) = run p a v task

abbrev pub run_next : Platform → Agent → Answers → Checked Agent
run_next p a v = run_scheduled p a v (next_task a)

-- What a unit meets from one radio prelude to the next: what its tasks read, and the packets that
-- arrive while it listens.
pub record Meetings : Type 0 where
  pub at_prelude : Answers
  pub at_start : Answers
  pub at_send : Answers
  pub at_end : Answers
  pub arrivals : List Arrival

unfoldable pub rest_of_period : Platform → Agent → Meetings → Checked Agent
rest_of_period p a e = elim a.sync_slot_kind [
  | listen ↦ (do (b, listens) ← receive (sync_slot_handler p) a e.arrivals; run_next p b e.at_end)
  | _ ↦ (do b ← run_next p a e.at_send; run_next p b e.at_end)
]

unfoldable pub sync_period : Platform → Agent → Meetings → Checked Agent
unfolding rest_of_period
sync_period p a e = do
  b ← run_next p a e.at_prelude
  c ← run_next p b e.at_start
  rest_of_period p c e

-- There is power to sync but not to fish, the unit sends within the period, ends its slot a prelude
-- before the end, and hears only packets that it can.
pub record IsOrdinary (s : Schedule) (e : Meetings) : Type 0 where
  pub power : is_power_to_sync_only e.at_prelude.power ≡ true
  pub sends_after : s.start_time_of_sync_period ≤ e.at_send.now
  pub sends_before : e.at_send.now ≤ s.end_time_of_sync_period
  pub ends_after : s.start_time_of_sync_period ≤ e.at_end.now
  pub ends_before : e.at_end.now + virtual_slot_duration ≤ s.end_time_of_sync_period
  pub hearable : AreHearable s e.arrivals
  pub no_orders : AreNoOrders e.arrivals

-- The unit is about to sync again, its period starts at that time, and that many sync slots have
-- been silent, at most.
abbrev pub SyncsFrom : Platform → ℕ → ℕ → Agent → Type 0
SyncsFrom p start count a =
    IsSyncing p prelude_w_sync a
    × (a.schedule.start_time_of_sync_period ≡ start)
    × (a.count_sync_slots_without_sync_msg ≤ count)

pub run_next-Succeeds :
    (Q : Agent → Type 0) (p : Platform) (a : Agent) (v : Answers) (task : Task)
    → next_task a ≡ some task
    → Succeeds Q (run p a v task)
    → Succeeds Q (run_next p a v)
run_next-Succeeds Q p a v task e h = subst (λ t. Succeeds Q (run_scheduled p a v t)) (sym e) h

-- A sync slot and what follows it, in a period that has just begun.
module _ (p : Platform) (e : Meetings) (s : Schedule) (count : ℕ) (laws : TimeLaws p.time)
    (n : IsScheduled s) (fresh : s.end_time_of_sync_period ≡ s.unadjusted_end_time_of_sync_period)
    (o : IsOrdinary s e) where
  after_listening-SyncsFrom :
      (a : Agent)
      → IsSyncing p end_sync_slot_listen a
      → a.schedule.start_time_of_sync_period ≡ s.start_time_of_sync_period
      → a.count_sync_slots_without_sync_msg ≤ count
      → count < max_missing_syncs_per_dropout
      → Succeeds (SyncsFrom p s.start_time_of_sync_period (count + 1)) (run_next p a e.at_end)
  after_listening-SyncsFrom = λ a v start counted few.
      run_next-Succeeds (SyncsFrom p s.start_time_of_sync_period (count + 1)) p a e.at_end
        end_sync_slot_listen v.comes_next
        (ground (
          arith,
          run_end_listen-IsSyncing p a e.at_end laws v (omega arith)
              (omega (
                arith, v.ready.scheduled.normal, v.ready.scheduled.not_shortened, n.normal, fresh,
                o.ends_before,
              ))
              (omega (arith, v.ready.scheduled.not_too_long, o.ends_after)),
        ))

  listening-SyncsFrom :
      (a : Agent)
      → IsSyncing p end_sync_slot_listen a
      → IsOn s count a
      → count < max_missing_syncs_per_dropout
      → Succeeds
          (SyncsFrom p s.start_time_of_sync_period (count + 1))
          (receive (sync_slot_handler p) a e.arrivals >>= λ r. run_next p r.0 e.at_end)
  listening-SyncsFrom = λ a v on few.
      Succeeds-bind
        (λ r.
          IsSyncing p end_sync_slot_listen r.0
          × (r.0.schedule.start_time_of_sync_period ≡ a.schedule.start_time_of_sync_period)
          × (r.0.count_sync_slots_without_sync_msg ≤ a.count_sync_slots_without_sync_msg))
        (SyncsFrom p s.start_time_of_sync_period (count + 1))
        (receive (sync_slot_handler p) a e.arrivals) (λ r. run_next p r.0 e.at_end)
        (receive-IsSyncing p a e.arrivals v
          (subst (λ t. AreHearable t e.arrivals) (sym on.0) o.hearable) o.no_orders)
        (λ r (w, start, counted).
          after_listening-SyncsFrom r.0 w (start ∙ ap (λ t. t.start_time_of_sync_period) on.0)
            (omega (arith, counted, on.1)) few)

  sending-SyncsFrom :
      (a : Agent)
      → IsSyncing p send_sync_task a
      → (a.sync_slot_kind ≡ send_sync) ⊎ (a.sync_slot_kind ≡ SyncSlotKind.send_work_sync)
      → IsOn s count a
      → Succeeds
          (SyncsFrom p s.start_time_of_sync_period (count + 1))
          (run_next p a e.at_send >>= λ b. run_next p b e.at_end)
  sending-SyncsFrom = λ a v k on.
      Succeeds-bind (λ b. IsSyncing p end_sync_slot_send b × IsOn s count b)
        (SyncsFrom p s.start_time_of_sync_period (count + 1)) (run_next p a e.at_send)
        (λ b. run_next p b e.at_end)
        (run_next-Succeeds (λ b. IsSyncing p end_sync_slot_send b × IsOn s count b) p a e.at_send
          send_sync_task v.comes_next
          (run_send-IsSyncing p s count a e.at_send laws v k on o.sends_before
            (omega (arith, o.sends_after, n.normal, fresh))))
        (λ b (w, on').
          run_next-Succeeds (SyncsFrom p s.start_time_of_sync_period (count + 1)) p b e.at_end
            end_sync_slot_send w.comes_next
            (ground (
              arith,
              run_end_send-IsSyncing p s count b e.at_end laws w on' o.ends_before
                  (omega (arith, n.not_too_long, o.ends_after)),
            )))

  rest_of_period-SyncsFrom :
      (a : Agent)
      → IsSlotBegun p a
      → IsOn s count a
      → count < max_missing_syncs_per_dropout
      → Succeeds (SyncsFrom p s.start_time_of_sync_period (count + 1)) (rest_of_period p a e)
  unfolding rest_of_period
  rest_of_period-SyncsFrom =
      λ a v on few. ground (arith, listening-SyncsFrom a, sending-SyncsFrom a)

-- A whole sync period: a ready unit that syncs only, and has not missed its last tolerated sync,
-- runs through it without a failed assertion, whether it listens or sends, and is as ready for the
-- next one, which starts at its sync point; one more sync may be missed. This is so under the laws
-- of clock arithmetic, far from the end of the clock, where there is power to sync but not to fish, the unit sends
-- within the period and ends its slot a prelude before the period's normal end, and what it hears
-- is what it can, no orders.
pub sync_period-SyncsFrom :
    (p : Platform) (a : Agent) (e : Meetings)
    → TimeLaws p.time
    → IsSyncing p prelude_w_sync a
    → a.count_sync_slots_without_sync_msg < max_missing_syncs_per_dropout
    → a.schedule.end_time_of_sync_period < clock_limit
    → IsOrdinary (roll_period_forward a.schedule) e
    → Succeeds
        (SyncsFrom p a.schedule.end_time_of_sync_period (a.count_sync_slots_without_sync_msg + 1))
        (sync_period p a e)
unfolding sync_period roll_period_forward
sync_period-SyncsFrom p a e laws v few near o =
    let count = a.count_sync_slots_without_sync_msg in
    let s = roll_period_forward a.schedule in
    let Q = SyncsFrom p a.schedule.end_time_of_sync_period (count + 1) in
    Succeeds-bind (λ b. IsSyncing p start_sync_slot_after_prelude b × IsOn a.schedule count b) Q
      (run_next p a e.at_prelude) (λ b. run_next p b e.at_start >>= λ c. rest_of_period p c e)
      (run_next-Succeeds
        (λ b. IsSyncing p start_sync_slot_after_prelude b × IsOn a.schedule count b) p a
        e.at_prelude prelude_w_sync v.comes_next (run_prelude-IsSyncing p a e.at_prelude v o.power))
      (λ b (w, on).
        Succeeds-bind (λ c. IsSlotBegun p c × IsOn s count c) Q (run_next p b e.at_start)
          (λ c. rest_of_period p c e)
          (run_next-Succeeds (λ c. IsSlotBegun p c × IsOn s count c) p b e.at_start
            start_sync_slot_after_prelude w.comes_next
            (run_slot_start-IsSyncing p a.schedule count b e.at_start w on near))
          (λ c (u, on').
            rest_of_period-SyncsFrom p e s count laws
              (roll_period_forward-IsScheduled a.schedule near) refl o c u on' few))
