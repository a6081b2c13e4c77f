-- ===== src/Agent/Tasks/Exchange/Called.antt =====
-- The whole period of a master that sends its sync. Code: src/task/task.cpp,
-- src/schedule/syncSchedule.cpp, src/slots/sync/syncSlot.cpp, src/modules/syncSender.cpp.

use sleep_sync_agent.Agent.{
  Agent, Platform, end_sync_slot_send, prelude_w_sync, send_sync, send_sync_task,
  start_sync_slot_after_prelude,
}
use sleep_sync_agent.Agent.Tasks.Exchange.Calling.{
  IsAt, IsCall, IsLast, run_end_send-Calling, run_prelude-IsAt, run_send-Calling,
  run_slot_start-Calling,
}
use sleep_sync_agent.Agent.Tasks.SyncPeriod.{
  Meetings, rest_of_period, run_next, run_next-Succeeds, sync_period,
}
use sleep_sync_agent.Agent.Tasks.Syncing.{IsSyncing, is_power_to_sync_only}
use sleep_sync_agent.Base.{
  Succeeds, Succeeds-bind, arith, false, refl, true, ℕ, ◌+◌, ◌<◌, ◌>>=◌, ◌^◌, ◌∙◌, ◌≡◌, ◌≤◌,
}
use sleep_sync_agent.Params.{send_latency, virtual_slot_duration}
use sleep_sync_agent.Schedule.{Schedule, roll_period_forward}
use sleep_sync_agent.Schedule.Adjusting.{IsScheduled, clock_limit, roll_period_forward-IsScheduled}
use sleep_sync_agent.TimeMath.{TimeLaws}

-- There is power to sync but not to fish, the policy lets a master send, the app has nothing to
-- send, and the unit sends in time and ends its slot a prelude before the end.
pub record IsCalling (p : Platform) (s : Schedule) (e : Meetings) : Type 0 where
  pub power : is_power_to_sync_only e.at_prelude.power ≡ true
  pub no_mail : e.at_start.is_mail ≡ false
  pub alarm : e.at_start.alarm ≡ true
  pub toss : e.at_start.sync_toss ≡ true
  pub sends_after : s.start_time_of_sync_period ≤ e.at_send.now
  pub sends_before : e.at_send.now + send_latency p.chip ≤ s.end_time_of_sync_period
  pub ends_after : s.start_time_of_sync_period ≤ e.at_end.now
  pub ends_before : e.at_end.now + virtual_slot_duration ≤ s.end_time_of_sync_period

-- The unit is at its next period's prelude, and has sent a sync by that schedule.
abbrev pub HasCalled : Platform → Schedule → Meetings → ℕ → Agent → Type 0
HasCalled p s e count a =
    IsSyncing p prelude_w_sync a × IsAt s count p.system_id a × IsLast (IsCall p s e.at_send.now) a

module _ (p : Platform) (e : Meetings) (s : Schedule) (count : ℕ) (laws : TimeLaws p.time)
    (fits : p.system_id < 2 ^ 48) (n : IsScheduled s)
    (fresh : s.end_time_of_sync_period ≡ s.unadjusted_end_time_of_sync_period)
    (o : IsCalling p s e) where
  end_of_call-HasCalled :
      (b : Agent)
      → IsSyncing p end_sync_slot_send b
      → IsAt s count p.system_id b
      → IsLast (IsCall p s e.at_send.now) b
      → Succeeds (HasCalled p s e count) (run_next p b e.at_end)
  end_of_call-HasCalled = λ b w on said.
      run_next-Succeeds (HasCalled p s e count) p b e.at_end end_sync_slot_send w.comes_next (
        run_end_send-Calling p s count b e.at_end (IsCall p s e.at_send.now) laws w on said
          o.ends_before (omega (arith, n.not_too_long, o.ends_after)))

  call-HasCalled :
      (a : Agent)
      → IsSyncing p send_sync_task a
      → a.sync_slot_kind ≡ send_sync
      → IsAt s count p.system_id a
      → Succeeds (HasCalled p s e count) (run_next p a e.at_send >>= λ b. run_next p b e.at_end)
  call-HasCalled = λ a v k on.
      let Q = λ (b : Agent).
        IsSyncing p end_sync_slot_send b
        × IsAt s count p.system_id b
        × IsLast (IsCall p s e.at_send.now) b in
      Succeeds-bind Q (HasCalled p s e count) (run_next p a e.at_send) (λ b. run_next p b e.at_end)
        (run_next-Succeeds Q p a e.at_send send_sync_task v.comes_next (
          run_send-Calling p s count a e.at_send laws v k on fits o.sends_before
            (omega (arith, o.sends_after, n.normal, fresh))))
        (λ b (w, on', said). end_of_call-HasCalled b w on' said)

  rest_of_period-HasCalled :
      (a : Agent)
      → a.sync_slot_kind ≡ send_sync
      → IsSyncing p send_sync_task a
      → IsAt s count p.system_id a
      → Succeeds (HasCalled p s e count) (rest_of_period p a e)
  unfolding rest_of_period
  rest_of_period-HasCalled = λ a k v on. ground (arith, call-HasCalled a v k on)

-- A master's period in which it sends: no assertion fails.
pub sync_period-HasCalled :
    (p : Platform) (a : Agent) (e : Meetings)
    → TimeLaws p.time
    → p.system_id < 2 ^ 48
    → IsSyncing p prelude_w_sync a
    → a.clique_master_id ≡ p.system_id
    → a.schedule.end_time_of_sync_period < clock_limit
    → IsCalling p (roll_period_forward a.schedule) e
    → Succeeds
        (HasCalled p (roll_period_forward a.schedule) e a.count_sync_slots_without_sync_msg)
        (sync_period p a e)
unfolding sync_period roll_period_forward
sync_period-HasCalled p a e laws fits v own near o =
    let count = a.count_sync_slots_without_sync_msg in
    let s = roll_period_forward a.schedule in
    let Q = HasCalled p s e count in
    let P = λ (b : Agent).
      IsSyncing p start_sync_slot_after_prelude b × IsAt a.schedule count a.clique_master_id b in
    let R = λ (c : Agent).
      (c.sync_slot_kind ≡ send_sync) × IsSyncing p send_sync_task c × IsAt s count p.system_id c in
    Succeeds-bind P Q (run_next p a e.at_prelude)
      (λ b. run_next p b e.at_start >>= λ c. rest_of_period p c e)
      (run_next-Succeeds P p a e.at_prelude prelude_w_sync v.comes_next
        (run_prelude-IsAt p a e.at_prelude v o.power))
      (λ b (w, on).
        Succeeds-bind R Q (run_next p b e.at_start) (λ c. rest_of_period p c e)
          (run_next-Succeeds R p b e.at_start start_sync_slot_after_prelude w.comes_next (
            run_slot_start-Calling p a.schedule count b e.at_start w (on.0, on.1 ∙ own) near
              o.no_mail o.alarm o.toss))
          (λ c (k, u, on').
            rest_of_period-HasCalled p e s count laws fits
              (roll_period_forward-IsScheduled a.schedule near) refl o c k u on'))
