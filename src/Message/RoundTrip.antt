-- ===== src/Message/RoundTrip.antt =====
-- What comes out of the radio buffer of what went in. Code: src/message/serializer.cpp,
-- src/message/message.cpp.

use sleep_sync_agent.Base.{
  arith, failed, false, if◌then◌else◌, inl, inr, none, ok, refl, some, suc, true, u8, zero, ℕ, ◌%◌,
  ◌+◌, ◌/◌, ◌<◌, ◌==◌, ◌^◌, ◌↔◌, ◌≡◌, ◌≢◌, ◌≤◌, ◌⊎◌,
}
use sleep_sync_agent.Message.{
  MessageType, SyncMessage, does_carry_sync, invalid, message_type_from_raw, raw_of_message_type,
}
use sleep_sync_agent.Message.Serializer.{
  Buffer, copy_from, copy_to, is_invalid, serialize, unserialize, unserialize_offset,
  unserialize_type,
}
use sleep_sync_agent.Params.{normal_sync_period_duration}

-- What a byte string of `k` bytes can hold.
abbrev Fits : ℕ → ℕ → Type 0
Fits zero value = value ≡ 0
Fits (suc k) value = Fits k (value / 256)

copy_to-below :
    (k index value : ℕ) (buffer : Buffer) (i : ℕ)
    → i < index
    → copy_to k index value buffer i ≡ buffer i
unfolding copy_to
copy_to-below zero index value buffer i h = refl
copy_to-below (suc k) index value buffer i h = ground (
  arith,
  copy_to-below k (index + 1) (value / 256) (λ j. if j == index then value % 256 else buffer j) i,
)

copy_to-above :
    (k index value : ℕ) (buffer : Buffer) (i : ℕ)
    → index + k ≤ i
    → copy_to k index value buffer i ≡ buffer i
unfolding copy_to
copy_to-above zero index value buffer i h = refl
copy_to-above (suc k) index value buffer i h = ground (
  arith,
  copy_to-above k (index + 1) (value / 256) (λ j. if j == index then value % 256 else buffer j) i,
)

-- A number that fits is read back.
copy_from-copy_to :
    (k index value : ℕ) (buffer : Buffer)
    → Fits k value
    → copy_from k index (copy_to k index value buffer) ≡ value
unfolding copy_to copy_from
copy_from-copy_to zero index value buffer h = omega arith
copy_from-copy_to (suc k) index value buffer h =
    let next = λ (j : ℕ). if j == index then value % 256 else buffer j in
    ground (
      arith,
      copy_to-below k (index + 1) (value / 256) next index,
      copy_from-copy_to k (index + 1) (value / 256) next h,
    )

-- Reading looks only at its bytes.
copy_from-ext :
    (k index : ℕ) (f g : Buffer)
    → ((i : ℕ) → index ≤ i → i < index + k → f i ≡ g i)
    → copy_from k index f ≡ copy_from k index g
unfolding copy_from
copy_from-ext zero index f g h = refl
copy_from-ext (suc k) index f g h = ground (
  arith,
  h index (omega arith) (omega arith),
  copy_from-ext k (index + 1) f g (λ i lo hi. h i (omega arith) (omega arith)),
)

-- The type that a receiver finds in a message that was sent with type `t`.
abbrev pub received_type : MessageType → MessageType
received_type t = message_type_from_raw (u8 (raw_of_message_type t))

-- The fields fit in their bytes, and the offset is a DeltaSync.
pub record IsSendable (msg : SyncMessage) : Type 0 where
  pub master_fits : msg.master_id < 2 ^ 48
  pub delta_valid : msg.delta_to_next_sync_point ≤ normal_sync_period_duration
  pub work_fits : msg.work < 2 ^ 8

-- Writing elsewhere leaves what is read alone.
copy_from-copy_to_ne :
    (k index j at value : ℕ) (buffer : Buffer)
    → (index + k ≤ at) ⊎ (at + j ≤ index)
    → copy_from k index (copy_to j at value buffer) ≡ copy_from k index buffer
copy_from-copy_to_ne k index j at value buffer (inl h) =
    copy_from-ext k index (copy_to j at value buffer) buffer
      (λ i lo hi. copy_to-below j at value buffer i (omega arith))
copy_from-copy_to_ne k index j at value buffer (inr h) =
    copy_from-ext k index (copy_to j at value buffer) buffer
      (λ i lo hi. copy_to-above j at value buffer i (omega arith))

-- The buffer after each of the first three fields of a message.
module _ (msg : SyncMessage) (buffer : Buffer) where
  abbrev after_type : Buffer
  after_type = copy_to 1 0 (u8 (raw_of_message_type msg.type)) buffer

  abbrev after_master : Buffer
  after_master = copy_to 6 1 msg.master_id after_type

  abbrev after_offset : Buffer
  after_offset = copy_to 3 7 msg.delta_to_next_sync_point after_master

-- Serializing writes the eleven bytes of the payload and no other.
pub serialize_outside :
    (msg : SyncMessage) (buffer : Buffer) (i : ℕ) → 11 ≤ i → serialize msg buffer i ≡ buffer i
unfolding serialize
serialize_outside msg buffer i h = ground (
  arith,
  copy_to-above 1 10 msg.work (after_offset msg buffer) i,
  copy_to-above 3 7 msg.delta_to_next_sync_point (after_master msg buffer) i,
  copy_to-above 6 1 msg.master_id (after_type msg buffer) i,
  copy_to-above 1 0 (u8 (raw_of_message_type msg.type)) buffer i,
)

module _ (msg : SyncMessage) (buffer : Buffer) (v : IsSendable msg) where
  pub read_type : copy_from 1 0 (serialize msg buffer) ≡ u8 (raw_of_message_type msg.type)
  unfolding serialize
  read_type = ground (
    arith,
    copy_from-copy_to_ne 1 0 1 10 msg.work (after_offset msg buffer) (inl (omega arith)),
    copy_from-copy_to_ne 1 0 3 7 msg.delta_to_next_sync_point (after_master msg buffer)
        (inl (omega arith)),
    copy_from-copy_to_ne 1 0 6 1 msg.master_id (after_type msg buffer) (inl (omega arith)),
    copy_from-copy_to 1 0 (u8 (raw_of_message_type msg.type)) buffer (omega arith),
  )

  read_master : copy_from 6 1 (serialize msg buffer) ≡ msg.master_id
  unfolding serialize
  read_master = ground (
    arith,
    copy_from-copy_to_ne 6 1 1 10 msg.work (after_offset msg buffer) (inl (omega arith)),
    copy_from-copy_to_ne 6 1 3 7 msg.delta_to_next_sync_point (after_master msg buffer)
        (inl (omega arith)),
    copy_from-copy_to 6 1 msg.master_id (after_type msg buffer) (omega arith),
  )

  pub read_offset : copy_from 3 7 (serialize msg buffer) ≡ msg.delta_to_next_sync_point
  unfolding serialize
  read_offset = ground (
    arith,
    copy_from-copy_to_ne 3 7 1 10 msg.work (after_offset msg buffer) (inl (omega arith)),
    copy_from-copy_to 3 7 msg.delta_to_next_sync_point (after_master msg buffer) (omega arith),
  )

  read_work : copy_from 1 10 (serialize msg buffer) ≡ msg.work
  unfolding serialize
  read_work = copy_from-copy_to 1 10 msg.work (after_offset msg buffer) (omega arith)

  pub unserialize-serialize :
      (old : SyncMessage)
      → unserialize old (serialize msg buffer)
        ≡ ok (
            if is_invalid (received_type msg.type)
            then none
            else some (record msg {
              type = received_type msg.type;
              transmitted_signal_strength = old.transmitted_signal_strength;
            }))
  unfolding unserialize
  unserialize-serialize old = ground (arith, read_type, read_master, read_offset, read_work)

-- A valid type keeps its meaning over the air exactly if it carries sync: merge, info, abandon and
-- work control messages are received as something else.
pub received_type-eq_iff :
    (t : MessageType) → t ≢ invalid → (received_type t ≡ t) ↔ (does_carry_sync t ≡ true)
unfolding message_type_from_raw raw_of_message_type does_carry_sync
received_type-eq_iff t h = ground arith

-- A message whose type is valid and whose offset is longer than a sync period fails an assertion:
-- it is not answered by the null pointer.
pub unserialize-failed :
    (old : SyncMessage) (buffer : Buffer)
    → is_invalid (unserialize_type buffer) ≡ false
    → normal_sync_period_duration < unserialize_offset buffer
    → unserialize old buffer ≡ failed
unfolding unserialize
unserialize-failed old buffer h k = ground arith
