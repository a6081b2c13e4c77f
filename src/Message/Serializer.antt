-- ===== src/Message/Serializer.antt =====
-- src/message/serializer.cpp and otaPacket.h: messages to and from the bytes of the radio buffer.
-- The host is little-endian, as the source's `memcpy` needs. RANGE_FILTERING is not defined.

use sleep_sync_agent.Base.{
  Bool, Checked, Option, if◌then◌else◌, none, ok, some, suc, u8, zero, ℕ, ◌%◌, ◌*◌, ◌+◌, ◌/◌, ◌==◌,
  ◌>>=◌,
}
use sleep_sync_agent.Message.{
  MessageType, SyncMessage, invalid, message_type_from_raw, raw_of_message_type, set_delta,
}

-- The radio's buffer, by index.
abbrev pub Buffer : Type 0
Buffer = ℕ → ℕ

abbrev pub type_tss_index : ℕ
type_tss_index = 0

abbrev pub type_tss_length : ℕ
type_tss_length = 1

abbrev pub master_index : ℕ
master_index = 1

abbrev pub master_id_length : ℕ
master_id_length = 6

abbrev pub offset_index : ℕ
offset_index = 7

abbrev pub offset_length : ℕ
offset_length = 3

abbrev pub work_index : ℕ
work_index = 10

abbrev pub work_length : ℕ
work_length = 1

-- `memcpy` of the `k` low bytes of a number to and from the buffer.
unfoldable pub copy_to : ℕ → ℕ → ℕ → Buffer → Buffer
copy_to zero index value buffer = buffer
copy_to (suc k) index value buffer =
    copy_to k (index + 1) (value / 256) (λ i. if i == index then value % 256 else buffer i)

unfoldable pub copy_from : ℕ → ℕ → Buffer → ℕ
copy_from zero index buffer = 0
copy_from (suc k) index buffer = buffer index + 256 * copy_from k (index + 1) buffer

unfoldable pub serialize_type : SyncMessage → Buffer → Buffer
serialize_type msg = copy_to type_tss_length type_tss_index (u8 (raw_of_message_type msg.type))

unfoldable pub serialize_master_id : SyncMessage → Buffer → Buffer
serialize_master_id msg = copy_to master_id_length master_index msg.master_id

unfoldable pub serialize_offset : SyncMessage → Buffer → Buffer
serialize_offset msg = copy_to offset_length offset_index msg.delta_to_next_sync_point

unfoldable pub serialize_work : SyncMessage → Buffer → Buffer
serialize_work msg = copy_to work_length work_index msg.work

-- Serializer::serializeSyncMessageIntoRadioBuffer
unfoldable pub serialize : SyncMessage → Buffer → Buffer
unfolding serialize_type serialize_master_id serialize_offset serialize_work
serialize msg buffer =
    serialize_work msg (serialize_offset msg (serialize_master_id msg (serialize_type msg buffer)))

unfoldable pub unserialize_type : Buffer → MessageType
unserialize_type buffer = message_type_from_raw (copy_from type_tss_length type_tss_index buffer)

unfoldable pub unserialize_offset : Buffer → ℕ
unserialize_offset buffer = copy_from offset_length offset_index buffer

pub unserialize_master_id_into : SyncMessage → Buffer → SyncMessage
unserialize_master_id_into msg buffer = record msg {
  master_id = copy_from master_id_length master_index buffer;
}

pub unserialize_offset_into : SyncMessage → Buffer → Checked SyncMessage
unfolding unserialize_offset
unserialize_offset_into msg buffer = set_delta msg (unserialize_offset buffer)

pub unserialize_work_into : SyncMessage → Buffer → SyncMessage
unserialize_work_into msg buffer = record msg { work = copy_from work_length work_index buffer }

-- unserializeOTAFieldsIntoMessageFields
unfoldable pub unserialize_fields : MessageType → SyncMessage → Buffer → Checked SyncMessage
unfolding unserialize_master_id_into unserialize_offset_into unserialize_work_into
unserialize_fields received_msg_type msg buffer = do
  let m = unserialize_master_id_into (record msg { type = received_msg_type }) buffer
  m' ← unserialize_offset_into m buffer
  ok (unserialize_work_into m' buffer)

abbrev pub is_invalid : MessageType → Bool
is_invalid invalid = Bool.true
is_invalid _ = Bool.false

-- `Serializer::unserialize` on the reused message: what it returns, `none` for the null pointer.
unfoldable pub unserialize : SyncMessage → Buffer → Checked (Option SyncMessage)
unfolding unserialize_type unserialize_fields
unserialize message buffer =
    let type = unserialize_type buffer in
    if is_invalid type
    then ok none
    else (unserialize_fields type message buffer >>= λ m. ok (some m))
