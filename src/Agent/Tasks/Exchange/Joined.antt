-- ===== src/Agent/Tasks/Exchange/Joined.antt =====
-- A unit hears a master for the first time, period and all. Code: src/task/task.cpp,
-- src/slots/sync/syncSlot.cpp, src/modules/syncSender.cpp, src/receiver/receiver.cpp,
-- src/messageHandler, src/clique/schedule.cpp.

use sleep_sync_agent.Agent.{Agent, Platform, prelude_w_sync}
use sleep_sync_agent.Agent.Receiver.Slot.{Arrival}
use sleep_sync_agent.Agent.Tasks.Exchange.{carried, exchange, last_sent}
use sleep_sync_agent.Agent.Tasks.Exchange.Answered.{listening-Joins}
use sleep_sync_agent.Agent.Tasks.Exchange.Answering.{HasAnswered, IsAnswering, IsQuiet}
use sleep_sync_agent.Agent.Tasks.Exchange.Called.{HasCalled, IsCalling, sync_period-HasCalled}
use sleep_sync_agent.Agent.Tasks.Exchange.Calling.{IsAt, IsCall}
use sleep_sync_agent.Agent.Tasks.Exchange.Listened.{sync_period-HasAnswered_heard}
use sleep_sync_agent.Agent.Tasks.SyncPeriod.{Meetings, sync_period}
use sleep_sync_agent.Agent.Tasks.Syncing.{IsSyncing}
use sleep_sync_agent.Base.{
  Succeeds, Succeeds-bind, [], arith, ok, refl, subst, sym, true, ℕ, ◌+◌, ◌<◌, ◌>>=◌, ◌^◌, ◌∷◌, ◌≡◌,
  ◌≤◌, ◌⊎◌,
}
use sleep_sync_agent.Examples.Tasks.{answers}
use sleep_sync_agent.Message.{SyncMessage}
use sleep_sync_agent.Params.{normal_sync_period_duration, send_latency}
use sleep_sync_agent.Schedule.{Schedule, adjust_by_sync_msg, roll_period_forward}
use sleep_sync_agent.Schedule.Adjusting.{
  IsScheduled, adjust_by_sync_msg_lem, clock_limit, roll_period_forward-IsScheduled, sync_end,
}
use sleep_sync_agent.Schedule.Heeding.{Heeds}
use sleep_sync_agent.Schedule.SyncOffset.{calculate, calculate-eq}
use sleep_sync_agent.TimeMath.{TimeLaws}

-- Both units are at their next prelude; the second is on that schedule in the clique of the first,
-- with that many silent sync slots at most.
pub record HaveMet (p q : Platform) (s t : Schedule) (count : ℕ) (pair : Agent × Agent)
    : Type 0 where
  pub sender : IsSyncing p prelude_w_sync pair.0
  pub master : pair.0.clique_master_id ≡ p.system_id
  pub sent_on : pair.0.schedule ≡ s
  pub receiver : IsSyncing q prelude_w_sync pair.1
  pub member : IsAt t count p.system_id pair.1

HasCalled-last_sent :
    (p : Platform) (s : Schedule) (e : Meetings) (count : ℕ) (c : Agent)
    → HasCalled p s e count c
    → Succeeds (IsCall p s e.at_send.now) (last_sent c)
unfolding last_sent
HasCalled-last_sent p s e count c h = ground arith

-- The sender's period, then the receiver's, whatever that hears.
pub exchange-HaveMet :
    (p q : Platform) (s t : Schedule) (a b : Agent) (e f : Meetings) (x : Arrival)
    (sent_count count : ℕ)
    → Succeeds (HasCalled p s e sent_count) (sync_period p a e)
    → ((m : SyncMessage)
        → IsCall p s e.at_send.now m
        → Succeeds
            (HasAnswered q t count p.system_id)
            (sync_period q b (record f { arrivals = carried m x ∷ [] })))
    → Succeeds (HaveMet p q s t count) (exchange p q (a, b) e f x)
unfolding exchange
exchange-HaveMet p q s t a b e f x sent_count count h answers =
    let Q = HaveMet p q s t count in
    Succeeds-bind (HasCalled p s e sent_count) Q (sync_period p a e)
      (λ c. last_sent c >>= λ m.
        sync_period q b (record f { arrivals = carried m x ∷ [] }) >>= λ d. ok (c, d))
      h
      (λ c w.
        Succeeds-bind (IsCall p s e.at_send.now) Q (last_sent c)
          (λ m. sync_period q b (record f { arrivals = carried m x ∷ [] }) >>= λ d. ok (c, d))
          (HasCalled-last_sent p s e sent_count c w)
          (λ m call.
            Succeeds-bind (HasAnswered q t count p.system_id) Q
              (sync_period q b (record f { arrivals = carried m x ∷ [] })) (λ d. ok (c, d))
              (answers m call)
              (λ d u. record {
                sender = w.0;
                master = w.1.1;
                sent_on = w.1.0.0;
                receiver = u.0;
                member = u.1;
              })))

-- What the schedules of two units have to do with each other: the clocks differ by `ahead_b` and
-- `ahead_a`, and the period of the second ends with that of the first or one normal period after.
abbrev pub IsPhased : Schedule → Schedule → ℕ → ℕ → Type 0
IsPhased s t ahead_a ahead_b =
    (t.end_time_of_sync_period + ahead_a ≡ s.end_time_of_sync_period + ahead_b)
    ⊎ (t.end_time_of_sync_period + ahead_a
        ≡ s.end_time_of_sync_period + ahead_b + normal_sync_period_duration)

-- The period of a unit that hears a sync in time.
abbrev pub synced : Schedule → ℕ → ℕ → Schedule
synced u toa delta = record u { end_time_of_sync_period = sync_end u toa delta }

module _ (u : Schedule) (toa delta : ℕ) (n : IsScheduled u)
    (fresh : u.end_time_of_sync_period ≡ u.unadjusted_end_time_of_sync_period)
    (after : u.start_time_of_sync_period ≤ toa) (before : toa ≤ u.end_time_of_sync_period)
    (near : toa < clock_limit) (small : delta ≤ normal_sync_period_duration) where
  synced-Heeds : Heeds u toa delta
  synced-Heeds = ground arith

  synced_later : u.end_time_of_sync_period ≤ (synced u toa delta).end_time_of_sync_period
  synced_later = ground arith

  synced_near :
      (synced u toa delta).end_time_of_sync_period
      ≤ u.end_time_of_sync_period + normal_sync_period_duration
  synced_near = ground arith

-- It ends with the period `s` that the sync counts to the end of, or one normal period after.
pub synced-IsPhased :
    (s u : Schedule) (toa delta sent_at ahead_a ahead_b : ℕ)
    → IsScheduled u
    → u.end_time_of_sync_period ≡ u.unadjusted_end_time_of_sync_period
    → u.start_time_of_sync_period ≤ toa
    → toa ≤ u.end_time_of_sync_period
    → delta + sent_at ≡ s.end_time_of_sync_period
    → sent_at + ahead_b ≡ toa + ahead_a
    → IsPhased s (synced u toa delta) ahead_a ahead_b
synced-IsPhased s u toa delta sent_at ahead_a ahead_b n fresh after before exact same = ground arith

-- The offset that a unit sends in time is a DeltaSync and counts to the end of its period.
pub offset-exact :
    (p : Platform) (s : Schedule) (e : Meetings)
    → TimeLaws p.time
    → IsScheduled s
    → s.end_time_of_sync_period ≡ s.unadjusted_end_time_of_sync_period
    → IsCalling p s e
    → let delta = calculate p.time p.chip s e.at_send.now in
      (delta ≤ normal_sync_period_duration)
      × (delta + (e.at_send.now + send_latency p.chip) ≡ s.end_time_of_sync_period)
offset-exact p s e laws n fresh o = ground (
  arith,
  calculate-eq p.time laws p.chip s e.at_send.now o.sends_before
      (omega (arith, o.sends_after, n.normal, fresh)),
)

pub rolled_fresh :
    (s : Schedule)
    → (roll_period_forward s).end_time_of_sync_period
      ≡ (roll_period_forward s).unadjusted_end_time_of_sync_period
unfolding roll_period_forward
rolled_fresh s = refl

-- A valid packet, of a clique that is the same or a better one.
pub exchange-valid :
    (p q : Platform) (a b : Agent) (e f : Meetings) (x : Arrival)
    → TimeLaws p.time
    → TimeLaws q.time
    → p.system_id < 2 ^ 48
    → IsSyncing p prelude_w_sync a
    → a.clique_master_id ≡ p.system_id
    → a.schedule.end_time_of_sync_period < clock_limit
    → IsCalling p (roll_period_forward a.schedule) e
    → IsSyncing q prelude_w_sync b
    → p.system_id ≤ b.clique_master_id
    → b.schedule.end_time_of_sync_period < clock_limit
    → IsQuiet q b.clique_master_id f
    → IsAnswering (roll_period_forward b.schedule) f x
    → x.crc_valid ≡ true
    → x.toa < clock_limit
    → let s = roll_period_forward a.schedule in
      let u = roll_period_forward b.schedule in
      Succeeds
        (HaveMet p q s (synced u x.toa (calculate p.time p.chip s e.at_send.now)) 1)
        (exchange p q (a, b) e f x)
exchange-valid p q a b e f x laws laws' fits v own far calling w better far' quiet o valid near =
    let s = roll_period_forward a.schedule in
    let u = roll_period_forward b.schedule in
    let delta = calculate p.time p.chip s e.at_send.now in
    let exact =
      offset-exact p s e laws (roll_period_forward-IsScheduled a.schedule far)
        (rolled_fresh a.schedule) calling in
    let n = roll_period_forward-IsScheduled b.schedule far' in
    let fresh = rolled_fresh b.schedule in
    let t = synced u x.toa delta in
    let heard =
      adjust_by_sync_msg_lem u x.toa delta n fresh o.comes_after o.comes_before exact.0 near in
    exchange-HaveMet p q s t a b e f x a.count_sync_slots_without_sync_msg 1
      (sync_period-HasCalled p a e laws fits v own far calling)
      (λ m call.
        subst
          (λ id.
            Succeeds (HasAnswered q t 1 id)
              (sync_period q b (record f { arrivals = carried m x ∷ [] })))
          call.master
          (sync_period-HasAnswered_heard q b f m x t 0 m.master_id laws' w quiet far' o
            (synced_later u x.toa delta n fresh o.comes_after o.comes_before near exact.0)
            (synced_near u x.toa delta n fresh o.comes_after o.comes_before near exact.0)
            (omega arith)
            (λ c y on.
              listening-Joins q u t b.count_sync_slots_without_sync_msg b.clique_master_id c m x y
                on valid call.sendable call.type (omega (arith, call.master, better))
                o.random_offset
                (subst (Heeds u x.toa) (sym call.delta)
                  (synced-Heeds u x.toa delta n fresh o.comes_after o.comes_before near exact.0))
                (subst (λ d. adjust_by_sync_msg u x.toa d ≡ ok t) (sym call.delta) heard.0))))
