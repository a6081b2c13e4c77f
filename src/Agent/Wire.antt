-- ===== src/Agent/Wire.antt =====
-- Whatever a unit keeps in order to send it, or has sent, fits the bytes of the wire. Code:
-- src/message/otaPacket.h, src/clique, src/cliqueHistory, src/cliqueMerger, src/network.

pub mod Handled
use sleep_sync_agent.Agent.{Agent, Platform}
use sleep_sync_agent.Agent.Mastership.{update_by_sync_message, update_mastership}
use sleep_sync_agent.Agent.Reversion.{
  check_master_dropped_out, grab_mastership, revert_by_clique_history, revert_to_former_master,
  scatter_sync,
}
use sleep_sync_agent.Base.{Checked, List, [], arith, failed, ok, ℕ, ◌-◌, ◌<◌, ◌>>=◌, ◌^◌, ◌∷◌}
use sleep_sync_agent.Clique.CliqueHistory.{
  add, current_clique_record_master_id, set_current_clique_record_to_former_clique,
}
use sleep_sync_agent.Clique.DropoutMonitor.{is_dropout, reset_dropout}
use sleep_sync_agent.Message.{SyncMessage}
use sleep_sync_agent.Message.RoundTrip.{IsSendable}

abbrev pub AllSent : (SyncMessage → Type 0) → List SyncMessage → Type 0
AllSent P [] = Unit {0}
AllSent P (m ∷ ms) = P m × AllSent P ms

-- Every master ID fits in six bytes, the repeated value in one, and so does all that was sent.
pub record FitsWire (a : Agent) : Type 0 where
  pub master : a.clique_master_id < 2 ^ 48
  pub former : (i : ℕ) → (a.history.clique_records i).master_id < 2 ^ 48
  pub superior : a.clique_merger.superior_master_id < 2 ^ 48
  pub value : a.repeater.a_value < 256
  pub all_sent : AllSent IsSendable a.sent

abbrev pub FitsIfOk : Checked Agent → Type 0
FitsIfOk (ok a) = FitsWire a
FitsIfOk failed = Unit {0}

abbrev pub AnsweredFitsIfOk {ℓ} : {A : Type ℓ} → Checked (Agent × A) → Type 0
AnsweredFitsIfOk (ok (a, result)) = FitsWire a
AnsweredFitsIfOk failed = Unit {0}

pub FitsIfOk-bind :
    (r : Checked Agent) (f : Agent → Checked Agent)
    → FitsIfOk r
    → ((b : Agent) → FitsWire b → FitsIfOk (f b))
    → FitsIfOk (r >>= f)
FitsIfOk-bind (ok b) f v h = h b v
FitsIfOk-bind failed f v h = v

pub update_mastership-FitsWire :
    (a : Agent) (id : ℕ) → FitsWire a → id < 2 ^ 48 → FitsWire (update_mastership a id)
unfolding update_mastership add
update_mastership-FitsWire a id v k = ground arith

pub update_by_sync_message-FitsIfOk :
    (a : Agent) (msg : SyncMessage) (toa : ℕ)
    → FitsWire a
    → msg.master_id < 2 ^ 48
    → FitsIfOk (update_by_sync_message a msg toa)
unfolding update_by_sync_message
update_by_sync_message-FitsIfOk a msg toa v k =
    ground (arith, update_mastership-FitsWire a msg.master_id v k)

pub scatter_sync-FitsIfOk :
    (p : Platform) (a : Agent) (random_offset : ℕ)
    → FitsWire a
    → p.system_id < 2 ^ 48
    → FitsIfOk (scatter_sync p a random_offset)
unfolding scatter_sync grab_mastership
scatter_sync-FitsIfOk p a random_offset v k = ground arith

revert_to_former_master-FitsIfOk :
    (a : Agent) (now : ℕ) → FitsWire a → FitsIfOk (revert_to_former_master a now)
unfolding revert_to_former_master current_clique_record_master_id
revert_to_former_master-FitsIfOk a now v =
    let id = (a.history.clique_records 0).master_id in
    ground (arith, update_mastership-FitsWire a id v (v.former 0))

revert_by_clique_history-FitsIfOk :
    (p : Platform) (a : Agent) (now : ℕ)
    → FitsWire a
    → p.system_id < 2 ^ 48
    → FitsIfOk (revert_by_clique_history p a now)
unfolding revert_by_clique_history grab_mastership set_current_clique_record_to_former_clique
revert_by_clique_history-FitsIfOk p a now v k =
    let index = a.history.current_clique_index - 1 in
    let b = record a { history = record a.history { current_clique_index = index } } in
    ground (arith, λ (w : FitsWire b). revert_to_former_master-FitsIfOk b now w)

pub check_master_dropped_out-FitsIfOk :
    (p : Platform) (a : Agent) (now : ℕ)
    → FitsWire a
    → p.system_id < 2 ^ 48
    → FitsIfOk (check_master_dropped_out p a now)
unfolding check_master_dropped_out is_dropout reset_dropout
check_master_dropped_out-FitsIfOk p a now v k =
    let b = record a { count_sync_slots_without_sync_msg = 0 } in
    ground (arith, λ (w : FitsWire b). revert_by_clique_history-FitsIfOk p b now w k)
