-- ===== src/Agent/Receiver/Joining.antt =====
-- From the sender's clique, over the air, to the receiver's clique. Code:
-- src/modules/syncSender.cpp, src/message/serializer.cpp,
-- src/messageHandler/messageDispatcher.cpp, syncSlotMsgHandler.cpp, src/modules/syncBehaviour.cpp.
use native.Mathlib.Omega.{arith}
use sleep_sync_agent.Agent.{Agent, Platform}
use sleep_sync_agent.Agent.Behaviour.{
  filter_sync_msg, handle_superior_or_same_sync_msg, handle_superior_or_same_sync_while_merging,
}
use sleep_sync_agent.Agent.Behaviour.SyncSlotHandler.{
  HandlingResult, handle_granularity_aspect, handle_in_sync_slot, handle_sync_aspect,
  stop_listening_heard_master_sync,
}
use sleep_sync_agent.Agent.Mastership.{heard_sync, update_by_sync_message, update_mastership}
use sleep_sync_agent.Agent.Receiver.{dispatch, handle_unserialized}
use sleep_sync_agent.Agent.Sender.{make_sync, send_master_sync}
use sleep_sync_agent.Base.{
  Checked, ap, failed, ok, refl, some, subst, sym, true, ℕ, ◌+◌, ◌<◌, ◌>>=◌, ◌^◌, ◌∙◌, ◌≡◌, ◌≤◌,
  ◌⊎◌,
}
use sleep_sync_agent.Clique.DropoutMonitor.{reset_dropout}
use sleep_sync_agent.Message.{
  SyncMessage, does_carry_sync, master_sync, message_type_from_raw, raw_of_message_type,
}
use sleep_sync_agent.Message.MessageFactory.{init_sync_message}
use sleep_sync_agent.Message.RoundTrip.{IsSendable, unserialize-serialize}
use sleep_sync_agent.Message.Serializer.{Buffer, serialize, unserialize}
use sleep_sync_agent.Network.Granularity.{get_raw}
use sleep_sync_agent.Params.{normal_sync_period_duration, send_latency}
use sleep_sync_agent.Schedule.{Schedule, adjust_by_sync_msg}
use sleep_sync_agent.Schedule.Adjusting.{IsScheduled, clock_limit}
use sleep_sync_agent.Schedule.Phase.{sync-aligns}
use sleep_sync_agent.Schedule.SyncOffset.{calculate, calculate-eq}
use sleep_sync_agent.TimeMath.{TimeLaws}

-- The unit is in the clique of that master, on that schedule, has counted no lost sync, and stops
-- to listen.
abbrev pub HasJoined : ℕ → Schedule → Checked (Agent × HandlingResult) → Type 0
HasJoined id t (ok (c, result)) =
    (c.clique_master_id ≡ id)
    × (c.schedule ≡ t)
    × (c.count_sync_slots_without_sync_msg ≡ 0)
    × (result ≡ stop_listening_heard_master_sync)
HasJoined id t failed = ⊥

pub handle_in_sync_slot-HasJoined :
    (q : Platform) (b : Agent) (msg : SyncMessage) (t : Schedule) (toa now random_offset : ℕ)
    → msg.type ≡ master_sync
    → msg.master_id ≤ b.clique_master_id
    → adjust_by_sync_msg b.schedule toa msg.delta_to_next_sync_point ≡ ok t
    → HasJoined msg.master_id t (handle_in_sync_slot q b msg toa now random_offset)
unfolding handle_in_sync_slot handle_sync_aspect filter_sync_msg handle_granularity_aspect
    handle_superior_or_same_sync_msg handle_superior_or_same_sync_while_merging
    update_by_sync_message update_mastership heard_sync does_carry_sync reset_dropout
handle_in_sync_slot-HasJoined q b msg t toa now random_offset y k e = ground arith

-- What the sender's message says.
abbrev sent_sync : Platform → Agent → SyncMessage → ℕ → SyncMessage
sent_sync p a message now = record message {
  type = master_sync;
  work = get_raw a.power.granularity;
  master_id = a.clique_master_id;
  delta_to_next_sync_point = calculate p.time p.chip a.schedule now;
}

send_master_sync-eq :
    (p : Platform) (a : Agent) (message : SyncMessage) (now : ℕ)
    → calculate p.time p.chip a.schedule now ≤ normal_sync_period_duration
    → send_master_sync p a message now ≡ ok (sent_sync p a message now)
unfolding send_master_sync make_sync init_sync_message does_carry_sync
send_master_sync-eq p a message now h = ground arith

sent_sync-IsSendable :
    (p : Platform) (a : Agent) (message : SyncMessage) (now : ℕ)
    → a.clique_master_id < 2 ^ 48
    → calculate p.time p.chip a.schedule now ≤ normal_sync_period_duration
    → IsSendable (sent_sync p a message now)
unfolding get_raw
sent_sync-IsSendable p a message now fits in_period = ground arith

-- A sync of `a`, serialized over whatever was in the buffer, received with a valid CRC by `b` over
-- whatever message it received last, and handled in its sync slot.
pub over_the_air :
    Platform
    → Platform
    → Agent
    → Agent
    → SyncMessage
    → SyncMessage
    → Buffer
    → ℕ
    → ℕ
    → ℕ
    → Checked (Agent × HandlingResult)
over_the_air p q a b message old buffer now_a toa now = do
  sent ← send_master_sync p a message now_a
  dispatch (λ msg. handle_in_sync_slot q b msg toa now 0) b true old (serialize sent buffer)

pub dispatch-eq :
    (handler : SyncMessage → Checked (Agent × HandlingResult)) (b : Agent) (old msg : SyncMessage)
    (buffer : Buffer)
    → unserialize old buffer ≡ ok (some msg)
    → dispatch handler b true old buffer ≡ handler msg
unfolding dispatch handle_unserialized
dispatch-eq handler b old msg buffer e = ap (λ r. r >>= handle_unserialized handler b) e

unserialize-sent_sync :
    (p : Platform) (a : Agent) (message old : SyncMessage) (buffer : Buffer) (now : ℕ)
    → IsSendable (sent_sync p a message now)
    → unserialize old (serialize (sent_sync p a message now) buffer)
      ≡ ok (
          some (record (sent_sync p a message now) {
            transmitted_signal_strength = old.transmitted_signal_strength;
          }))
unfolding message_type_from_raw raw_of_message_type
unserialize-sent_sync p a message old buffer now v =
    unserialize-serialize (sent_sync p a message now) buffer v old

over_the_air-HasJoined :
    (p q : Platform) (a b : Agent) (message old : SyncMessage) (buffer : Buffer) (t : Schedule)
    (now_a toa now : ℕ)
    → a.clique_master_id < 2 ^ 48
    → a.clique_master_id ≤ b.clique_master_id
    → calculate p.time p.chip a.schedule now_a ≤ normal_sync_period_duration
    → adjust_by_sync_msg b.schedule toa (calculate p.time p.chip a.schedule now_a) ≡ ok t
    → HasJoined a.clique_master_id t (over_the_air p q a b message old buffer now_a toa now)
unfolding over_the_air
over_the_air-HasJoined p q a b message old buffer t now_a toa now fits better in_period adjusted =
    let sent = sent_sync p a message now_a in
    let received = record sent { transmitted_signal_strength = old.transmitted_signal_strength } in
    let handler = λ (msg : SyncMessage). handle_in_sync_slot q b msg toa now 0 in
    subst (HasJoined a.clique_master_id t)
      (sym (
        ap (λ r. r >>= λ m. dispatch handler b true old (serialize m buffer))
          (send_master_sync-eq p a message now_a in_period)
        ∙ dispatch-eq handler b old received (serialize sent buffer) (
            unserialize-sent_sync p a message old buffer now_a
              (sent_sync-IsSendable p a message now_a fits in_period))))
      (handle_in_sync_slot-HasJoined q b received t toa now 0 refl better adjusted)

-- The crux of the protocol, end to end: the schedules are those of two units whose clocks differ by
-- `ahead_b` and `ahead_a`. Under the laws of clock arithmetic, far from the end of the clock, and
-- with a master ID that fits its six bytes: if the sender's master is the receiver's or a better one, the message is
-- sent in time in a normal period, and it arrives one send latency later in a period of the
-- receiver that was not extended, then no assertion fails at the sender or the receiver: the
-- receiver is in the sender's clique and stops to listen, and its period ends when the sender's
-- does, or one normal period after.
pub over_the_air-aligns :
    (p q : Platform) (a b : Agent) (message old : SyncMessage) (buffer : Buffer)
    (now_a toa now ahead_a ahead_b : ℕ)
    → TimeLaws p.time
    → a.clique_master_id < 2 ^ 48
    → a.clique_master_id ≤ b.clique_master_id
    → IsScheduled b.schedule
    → b.schedule.end_time_of_sync_period ≡ b.schedule.unadjusted_end_time_of_sync_period
    → b.schedule.start_time_of_sync_period ≤ toa
    → toa ≤ b.schedule.end_time_of_sync_period
    → toa < clock_limit
    → now_a + send_latency p.chip ≤ a.schedule.end_time_of_sync_period
    → a.schedule.end_time_of_sync_period ≤ now_a + normal_sync_period_duration
    → now_a + send_latency p.chip + ahead_b ≡ toa + ahead_a
    → (t : Schedule) × HasJoined a.clique_master_id t
        (over_the_air p q a b message old buffer now_a toa now)
      × IsScheduled t
      × ((t.end_time_of_sync_period + ahead_a ≡ a.schedule.end_time_of_sync_period + ahead_b)
          ⊎ (t.end_time_of_sync_period + ahead_a
              ≡ a.schedule.end_time_of_sync_period + ahead_b + normal_sync_period_duration))
over_the_air-aligns p q a b message old buffer now_a toa now ahead_a ahead_b laws fits better v
      fresh early late near h k same =
    let exact = calculate-eq p.time laws p.chip a.schedule now_a h (omega arith) in
    let (t, adjusted, w, phase) =
      sync-aligns p.time laws p.chip a.schedule b.schedule now_a toa ahead_a ahead_b v fresh early
        late near h k same in
    (
      t,
      over_the_air-HasJoined p q a b message old buffer t now_a toa now fits better
          (omega (arith, exact)) adjusted,
      w,
      phase,
    )
