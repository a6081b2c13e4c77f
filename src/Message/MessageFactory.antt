-- ===== src/Message/MessageFactory.antt =====
-- src/message/messageFactory.h: how a message is made, in the one instance that is reused. The
-- clique's master and the sync offset, which the source fetches, are arguments.

use sleep_sync_agent.Base.{Checked, check, ok, u8, ℕ, ◌>>=◌, ◌>>◌}
use sleep_sync_agent.Message.{
  MessageType, SyncMessage, abandon_mastership, does_carry_sync, info, set_delta,
}

unfoldable pub init_merge_sync_message : SyncMessage → MessageType → ℕ → ℕ → ℕ → Checked SyncMessage
init_merge_sync_message message a_type delta superior_master_id inferior_master_id = do
  m ← set_delta (record message { type = a_type }) delta
  ok (record m { master_id = superior_master_id; work = u8 inferior_master_id })

pub init_non_sync_message : SyncMessage → MessageType → ℕ → ℕ → Checked SyncMessage
init_non_sync_message message msg_type a_master_id work_payload = do
  m ← set_delta (record message { type = msg_type }) 0
  ok (record m { master_id = a_master_id; work = work_payload })

unfoldable pub init_abandon_mastership_message : SyncMessage → ℕ → Checked SyncMessage
init_abandon_mastership_message message a_master_id = do
  m ← set_delta (record message { type = abandon_mastership }) 0
  ok (record m { master_id = a_master_id; work = 0 })

unfoldable pub init_info_message : SyncMessage → ℕ → ℕ → Checked SyncMessage
unfolding init_non_sync_message
init_info_message message a_master_id work_payload =
    init_non_sync_message message info a_master_id work_payload

unfoldable pub init_sync_message : SyncMessage → MessageType → ℕ → ℕ → ℕ → Checked SyncMessage
unfolding does_carry_sync
init_sync_message message msg_type work_payload clique_master_id sync_offset = do
  check (does_carry_sync msg_type)
  set_delta (record message { type = msg_type; work = work_payload; master_id = clique_master_id })
      sync_offset
