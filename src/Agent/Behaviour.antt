-- ===== src/Agent/Behaviour.antt =====
-- src/modules/syncBehaviour.cpp: what a message that carries sync does in a sync slot. `toa` is the
-- reading of Radio::timeOfArrival().
pub mod Better
pub mod Lesser
pub mod Agreement
pub mod SyncSlotHandler
pub mod FishSlotHandler
use sleep_sync_agent.Agent.{Agent, Platform, is_merger}
use sleep_sync_agent.Agent.Mastership.{
  heard_sync, is_msg_from_my_clique, is_other_clique_better, update_by_sync_message,
}
use sleep_sync_agent.Agent.Merging.{stop_merger}
use sleep_sync_agent.Base.{Bool, Checked, check, false, if◌then◌else◌, ok, true, ℕ, ◌>>=◌, ◌>>◌}
use sleep_sync_agent.Message.{SyncMessage, does_carry_sync}

unfoldable pub handle_superior_or_same_sync_while_merging : Agent → SyncMessage → Checked Agent
handle_superior_or_same_sync_while_merging a msg =
    if is_msg_from_my_clique a msg.master_id then ok a else stop_merger a

unfoldable pub handle_superior_or_same_sync_msg : Agent → SyncMessage → ℕ → Checked Agent
unfolding handle_superior_or_same_sync_while_merging
handle_superior_or_same_sync_msg a msg toa = do
  b ← update_by_sync_message a msg toa
  if is_merger b.role then handle_superior_or_same_sync_while_merging b msg else ok b

-- The result says whether the message keeps sync.
unfoldable pub filter_sync_msg : Platform → Agent → SyncMessage → ℕ → Checked (Agent × Bool)
unfolding handle_superior_or_same_sync_msg
filter_sync_msg p a msg toa = do
  check (does_carry_sync msg.type)
  if is_msg_from_my_clique a msg.master_id
      then (do b ← handle_superior_or_same_sync_msg a msg toa; ok (heard_sync p b, true))
      else if is_other_clique_better a msg.master_id
      then (do b ← handle_superior_or_same_sync_msg a msg toa; ok (heard_sync p b, true))
      else ok (a, false)
