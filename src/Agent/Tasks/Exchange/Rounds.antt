-- ===== src/Agent/Tasks/Exchange/Rounds.antt =====
-- A master and its slave over any number of periods. Code: src/task/task.cpp,
-- src/slots/sync/syncSlot.cpp, src/modules/syncSender.cpp, src/receiver/receiver.cpp,
-- src/messageHandler, src/clique/schedule.cpp, src/policy/dropoutMonitor.cpp.

use sleep_sync_agent.Agent.{Agent, Platform}
use sleep_sync_agent.Agent.Tasks.Exchange.InStep.{round-HaveMet}
use sleep_sync_agent.Agent.Tasks.Exchange.Joined.{HaveMet}
use sleep_sync_agent.Agent.Tasks.Exchange.Round.{
  AreInStep, AreRounds, IsSameEnd, Round, count_after, rolled-IsSameEnd, rolled_end, round, rounds,
}
use sleep_sync_agent.Base.{
  List, Succeeds, Succeeds-bind, [], ap, arith, length, subst, sym, ℕ, ◌*◌, ◌+◌, ◌<◌, ◌^◌, ◌∷◌, ◌≡◌,
  ◌≢◌,
}
use sleep_sync_agent.Params.{normal_sync_period_duration}
use sleep_sync_agent.Schedule.{Schedule, roll_period_forward}
use sleep_sync_agent.TimeMath.{TimeLaws}

subst-schedules :
    (P : Schedule → Schedule → Type 0) (s t u v : Schedule) → t ≡ s → v ≡ u → P s u → P t v
subst-schedules P s t u v e f h = subst (λ x. P x v) (sym e) (subst (P s) (sym f) h)

-- Synchronized units stay synchronized: a master and a slave in its clique, with different system
-- IDs and clocks that differ by `ahead_b` and `ahead_a`, both at the prelude to a period that
-- starts at the same instant, run through any number of periods with no failed assertion in either
-- unit, and are then both at the prelude to a period that starts at the same instant, that many
-- normal periods later, the slave still in the clique. In each of these periods either the master's
-- policy lets it send, in time, and the slave gets the packet one send latency later, with a valid
-- CRC or a garbled one, or the policy does not let it send and nothing comes to either; the
-- slave's count of silent sync slots, which a valid packet sets back to one, is 80 at most. This is
-- so under the laws of clock arithmetic, far from the end of the clock, with a system ID of the
-- master that fits six bytes, where both have power to sync but not to fish, no control message to
-- repeat and nothing to send from an app, and end their slots a prelude before the end of the
-- period.
pub rounds-AreInStep :
    (p q : Platform) (a b : Agent) (rs : List Round) (count ahead_a ahead_b : ℕ)
    → TimeLaws p.time
    → TimeLaws q.time
    → p.system_id < 2 ^ 48
    → p.system_id ≢ q.system_id
    → HaveMet p q a.schedule b.schedule count (a, b)
    → IsSameEnd a.schedule b.schedule ahead_a ahead_b
    → AreRounds p q a.schedule b.schedule count ahead_a ahead_b rs
    → Succeeds
        (AreInStep p q ahead_a ahead_b
          (a.schedule.end_time_of_sync_period + length rs * normal_sync_period_duration))
        (rounds p q (a, b) rs)
unfolding rounds
rounds-AreInStep p q a b [] count ahead_a ahead_b laws laws' fits other met same os =
    (met.sender, met.receiver, met.master, met.member.1, same, omega arith)
rounds-AreInStep p q a b (r ∷ rs) count ahead_a ahead_b laws laws' fits other met same
      (far, far', o, os) =
    let s = roll_period_forward a.schedule in
    let u = roll_period_forward b.schedule in
    let n = count_after r count in
    let end = a.schedule.end_time_of_sync_period + length (r ∷ rs) * normal_sync_period_duration in
    Succeeds-bind (HaveMet p q s u n) (AreInStep p q ahead_a ahead_b end) (round p q (a, b) r)
      (λ pair. rounds p q pair rs)
      (round-HaveMet p q a b r count ahead_a ahead_b laws laws' fits other met same far far' o)
      (λ (c, d) h.
        let back = λ (P : Schedule → Schedule → Type 0) (known : P s u).
          subst-schedules P s c.schedule u d.schedule h.sent_on h.member.0.0 known in
        let ends =
          rounds-AreInStep p q c d rs n ahead_a ahead_b laws laws' fits other
            (back (λ x y. HaveMet p q x y n (c, d)) h)
            (back (λ x y. IsSameEnd x y ahead_a ahead_b)
              (rolled-IsSameEnd a.schedule b.schedule ahead_a ahead_b far far' same))
            (back (λ x y. AreRounds p q x y n ahead_a ahead_b rs) os) in
        subst (λ t. Succeeds (AreInStep p q ahead_a ahead_b t) (rounds p q (c, d) rs))
          (omega (
            arith,
            ap (λ (t : Schedule). t.end_time_of_sync_period) h.sent_on,
            rolled_end a.schedule far,
          ))
          ends)
