-- ===== src/Agent/Receiver/Slot/Listening.antt =====
-- What holds of a unit while it listens, and afterwards. Code: src/receiver/receiver.cpp,
-- src/messageHandler/messageDispatcher.cpp.

use sleep_sync_agent.Agent.{Agent}
use sleep_sync_agent.Agent.Behaviour.SyncSlotHandler.{
  HandlingResult, keep_listening, stop_listening_heard_master_sync, stop_listening_heard_merge_sync,
  stop_listening_heard_work_sync,
}
use sleep_sync_agent.Agent.Receiver.Slot.{
  Arrival, Handler, is_keep_listening, on_msg_received, receive,
}
use sleep_sync_agent.Base.{
  Checked, List, Succeeds, [], failed, false, if◌then◌else◌, ok, ◌>>=◌, ◌∷◌,
}

-- No assertion failed; where the unit goes on listening one predicate holds of it, and the other
-- where it has stopped.
abbrev pub Heard : (Agent → Type 0) → (Agent → Type 0) → Checked (Agent × HandlingResult) → Type 0
Heard I Q (ok (b, keep_listening)) = I b
Heard I Q (ok (b, result)) = Q b
Heard I Q failed = ⊥

abbrev pub AllArrivals : (Arrival → Type 0) → List Arrival → Type 0
AllArrivals P [] = Unit {0}
AllArrivals P (x ∷ xs) = P x × AllArrivals P xs

module _ (handler : Handler) (I Q : Agent → Type 0) (Good : Arrival → Type 0)
    (step : (a : Agent) (x : Arrival) → I a → Good x → Heard I Q (on_msg_received handler a x))
    (stop : (a : Agent) → I a → Q a) where
  go_on-Succeeds :
      (r : Checked (Agent × HandlingResult)) (xs : List Arrival)
      → Heard I Q r
      → ((b : Agent) → I b → Succeeds (λ h. Q h.0) (receive handler b xs))
      → Succeeds
          (λ h. Q h.0)
          (r >>= λ h. if is_keep_listening h.1 then receive handler h.0 xs else ok (h.0, false))
  go_on-Succeeds (ok (b, keep_listening)) xs v f = f b v
  go_on-Succeeds (ok (b, stop_listening_heard_master_sync)) xs v f = v
  go_on-Succeeds (ok (b, stop_listening_heard_work_sync)) xs v f = v
  go_on-Succeeds (ok (b, stop_listening_heard_merge_sync)) xs v f = v
  go_on-Succeeds failed xs v f = absurd v

  pub receive-Succeeds :
      (a : Agent) (xs : List Arrival)
      → I a
      → AllArrivals Good xs
      → Succeeds (λ h. Q h.0) (receive handler a xs)
  unfolding receive
  receive-Succeeds a [] v g = stop a v
  receive-Succeeds a (x ∷ xs) v g =
      go_on-Succeeds (on_msg_received handler a x) xs (step a x v g.0)
        (λ b w. receive-Succeeds b xs w g.1)
