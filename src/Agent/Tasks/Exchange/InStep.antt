-- ===== src/Agent/Tasks/Exchange/InStep.antt =====
-- A master and its slave over one period, in step. Code: src/task/task.cpp,
-- src/slots/sync/syncSlot.cpp, src/modules/syncSender.cpp, src/receiver/receiver.cpp,
-- src/messageHandler, src/clique/schedule.cpp, src/policy/dropoutMonitor.cpp.

use sleep_sync_agent.Agent.{Agent, Platform, prelude_w_sync}
use sleep_sync_agent.Agent.Receiver.Slot.{Arrival}
use sleep_sync_agent.Agent.Tasks.Exchange.{exchange, quiet_exchange}
use sleep_sync_agent.Agent.Tasks.Exchange.Answered.{listening-garbled}
use sleep_sync_agent.Agent.Tasks.Exchange.Answering.{HasAnswered, IsAnswering, IsQuiet}
use sleep_sync_agent.Agent.Tasks.Exchange.Called.{IsCalling, sync_period-HasCalled}
use sleep_sync_agent.Agent.Tasks.Exchange.Joined.{
  HaveMet, exchange-HaveMet, exchange-valid, offset-exact, rolled_fresh, synced,
}
use sleep_sync_agent.Agent.Tasks.Exchange.Listened.{
  sync_period-HasAnswered_heard, sync_period-HasAnswered_missed, sync_period-HasAnswered_silent,
}
use sleep_sync_agent.Agent.Tasks.Exchange.Round.{
  IsCallRound, IsRound, IsSameEnd, IsSilentRound, Round, count_after, rolled-IsSameEnd, round,
}
use sleep_sync_agent.Agent.Tasks.SyncPeriod.{Meetings, sync_period}
use sleep_sync_agent.Agent.Tasks.Syncing.{IsSyncing}
use sleep_sync_agent.Base.{
  Succeeds, Succeeds-bind, [], arith, false, if◌then◌else◌, inl, ok, subst, sym, true, ℕ, ◌+◌, ◌<◌,
  ◌>>=◌, ◌^◌, ◌∙◌, ◌≡◌, ◌≢◌, ◌≤◌,
}
use sleep_sync_agent.Examples.Periods.{garbled}
use sleep_sync_agent.Params.{max_missing_syncs_per_dropout, send_latency}
use sleep_sync_agent.Schedule.{Schedule, roll_period_forward}
use sleep_sync_agent.Schedule.Adjusting.{clock_limit, roll_period_forward-IsScheduled}
use sleep_sync_agent.Schedule.SyncOffset.{calculate}
use sleep_sync_agent.TimeMath.{TimeLaws}

-- A valid sync of a master that it is in step with leaves the slave's period as it is.
synced-same :
    (s u : Schedule) (toa delta sent_at ahead_a ahead_b : ℕ)
    → IsSameEnd s u ahead_a ahead_b
    → delta + sent_at ≡ s.end_time_of_sync_period
    → sent_at + ahead_b ≡ toa + ahead_a
    → synced u toa delta ≡ u
synced-same s u toa delta sent_at ahead_a ahead_b same exact late = ground arith

-- A garbled packet: the slave keeps its schedule, and has missed one sync more.
exchange-garbled :
    (p q : Platform) (a b : Agent) (e f : Meetings) (x : Arrival) (count : ℕ)
    → TimeLaws p.time
    → TimeLaws q.time
    → p.system_id < 2 ^ 48
    → IsSyncing p prelude_w_sync a
    → a.clique_master_id ≡ p.system_id
    → a.schedule.end_time_of_sync_period < clock_limit
    → IsCalling p (roll_period_forward a.schedule) e
    → IsSyncing q prelude_w_sync b
    → b.clique_master_id ≡ p.system_id
    → b.count_sync_slots_without_sync_msg ≤ count
    → count < max_missing_syncs_per_dropout
    → b.schedule.end_time_of_sync_period < clock_limit
    → IsQuiet q b.clique_master_id f
    → IsAnswering (roll_period_forward b.schedule) f x
    → x.crc_valid ≡ false
    → Succeeds
        (HaveMet p q (roll_period_forward a.schedule) (roll_period_forward b.schedule) (count + 1))
        (exchange p q (a, b) e f x)
exchange-garbled p q a b e f x count laws laws' fits v own far calling w joined counted few far'
      quiet o garbled =
    let u = roll_period_forward b.schedule in
    let n = roll_period_forward-IsScheduled b.schedule far' in
    exchange-HaveMet p q (roll_period_forward a.schedule) u a b e f x
      a.count_sync_slots_without_sync_msg (count + 1)
      (sync_period-HasCalled p a e laws fits v own far calling)
      (λ m call.
        sync_period-HasAnswered_heard q b f m x u count p.system_id laws' w quiet far' o
          (omega arith) (omega arith) few
          (λ c y on.
            listening-garbled q u count p.system_id c m x y
              ((on.0.0, omega (arith, on.0.1, counted)), on.1 ∙ joined) garbled))

-- A silent round: both keep their schedules, and the slave has missed one sync more.
quiet_exchange-HaveMet :
    (p q : Platform) (a b : Agent) (r : Round) (count : ℕ)
    → TimeLaws p.time
    → TimeLaws q.time
    → HaveMet p q a.schedule b.schedule count (a, b)
    → a.schedule.end_time_of_sync_period < clock_limit
    → b.schedule.end_time_of_sync_period < clock_limit
    → IsQuiet q b.clique_master_id r.receiver
    → IsSilentRound (roll_period_forward a.schedule) (roll_period_forward b.schedule) count r
    → Succeeds
        (HaveMet p q (roll_period_forward a.schedule) (roll_period_forward b.schedule) (count + 1))
        (quiet_exchange p q (a, b) r.sender r.receiver)
unfolding quiet_exchange
quiet_exchange-HaveMet p q a b r count laws laws' met far far' quiet o =
    let s = roll_period_forward a.schedule in
    let u = roll_period_forward b.schedule in
    let Q = HaveMet p q s u (count + 1) in
    Succeeds-bind (HasAnswered p s a.count_sync_slots_without_sync_msg p.system_id) Q
      (sync_period p a (record r.sender { arrivals = [] }))
      (λ c. sync_period q b (record r.receiver { arrivals = [] }) >>= λ d. ok (c, d))
      (sync_period-HasAnswered_silent p a r.sender laws met.sender met.master o.alarm o.toss far
        o.sender)
      (λ c w.
        Succeeds-bind (HasAnswered q u (count + 1) b.clique_master_id) Q
          (sync_period q b (record r.receiver { arrivals = [] })) (λ d. ok (c, d))
          (sync_period-HasAnswered_missed q b r.receiver count laws' met.receiver quiet far'
            o.receiver met.member.0.1 o.few)
          (λ d v. record {
            sender = w.0;
            master = w.1.1;
            sent_on = w.1.0.0;
            receiver = v.0;
            member = (v.1.0, v.1.1 ∙ met.member.1);
          }))

-- A round in which the master sends.
exchange-InStep :
    (p q : Platform) (a b : Agent) (r : Round) (count ahead_a ahead_b : ℕ)
    → TimeLaws p.time
    → TimeLaws q.time
    → p.system_id < 2 ^ 48
    → HaveMet p q a.schedule b.schedule count (a, b)
    → IsSameEnd a.schedule b.schedule ahead_a ahead_b
    → a.schedule.end_time_of_sync_period < clock_limit
    → b.schedule.end_time_of_sync_period < clock_limit
    → IsQuiet q b.clique_master_id r.receiver
    → IsCallRound p q
        (roll_period_forward a.schedule)
        (roll_period_forward b.schedule)
        count
        ahead_a
        ahead_b
        r
    → Succeeds
        (HaveMet p q
          (roll_period_forward a.schedule)
          (roll_period_forward b.schedule)
          (if r.packet.crc_valid then 1 else count + 1))
        (exchange p q (a, b) r.sender r.receiver r.packet)
exchange-InStep p q a b r count ahead_a ahead_b laws laws' fits met same far far' quiet o =
    let s = roll_period_forward a.schedule in
    let u = roll_period_forward b.schedule in
    let x = r.packet in
    let exact =
      offset-exact p s r.sender laws (roll_period_forward-IsScheduled a.schedule far)
        (rolled_fresh a.schedule) o.calling in
    let unchanged =
      synced-same s u x.toa (calculate p.time p.chip s r.sender.at_send.now)
        (r.sender.at_send.now + send_latency p.chip) ahead_a ahead_b
        (rolled-IsSameEnd a.schedule b.schedule ahead_a ahead_b far far' same) exact.1 o.latency in
    let valid = λ (k : x.crc_valid ≡ true).
      subst (λ t. Succeeds (HaveMet p q s t 1) (exchange p q (a, b) r.sender r.receiver x))
        unchanged
        (exchange-valid p q a b r.sender r.receiver x laws laws' fits met.sender met.master far
          o.calling met.receiver (omega (arith, met.member.1)) far' quiet o.answering k o.early) in
    let garbled = λ (k : x.crc_valid ≡ false) (few : count < max_missing_syncs_per_dropout).
      exchange-garbled p q a b r.sender r.receiver x count laws laws' fits met.sender met.master far
        o.calling met.receiver met.member.1 met.member.0.1 few far' quiet o.answering k in
    ground (arith, valid, garbled)

slave-IsQuiet :
    (q : Platform) (id own : ℕ) (f : Meetings) → own ≡ id → id ≢ q.system_id → IsQuiet q own f
slave-IsQuiet q id own f e h = inl (subst (λ n. n ≢ q.system_id) (sym e) h)

-- One round: both are at their next preludes, on the schedules that were rolled forward.
pub round-HaveMet :
    (p q : Platform) (a b : Agent) (r : Round) (count ahead_a ahead_b : ℕ)
    → TimeLaws p.time
    → TimeLaws q.time
    → p.system_id < 2 ^ 48
    → p.system_id ≢ q.system_id
    → HaveMet p q a.schedule b.schedule count (a, b)
    → IsSameEnd a.schedule b.schedule ahead_a ahead_b
    → a.schedule.end_time_of_sync_period < clock_limit
    → b.schedule.end_time_of_sync_period < clock_limit
    → IsRound p q
        (roll_period_forward a.schedule)
        (roll_period_forward b.schedule)
        count
        ahead_a
        ahead_b
        r
    → Succeeds
        (HaveMet p q
          (roll_period_forward a.schedule)
          (roll_period_forward b.schedule)
          (count_after r count))
        (round p q (a, b) r)
unfolding round
round-HaveMet p q a b r count ahead_a ahead_b laws laws' fits other met same far far' o =
    let quiet = slave-IsQuiet q p.system_id b.clique_master_id r.receiver met.member.1 other in
    ground (
      arith,
      exchange-InStep p q a b r count ahead_a ahead_b laws laws' fits met same far far' quiet,
      quiet_exchange-HaveMet p q a b r count laws laws' met far far' quiet,
    )
