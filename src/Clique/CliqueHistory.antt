-- ===== src/Clique/CliqueHistory.antt =====
-- src/cliqueHistory/cliqueHistory.cpp and cliqueRecord.h: the masters that a unit has had.

use sleep_sync_agent.Base.{Bool, Checked, check, if◌then◌else◌, ltb, ok, ℕ, ◌+◌, ◌-◌, ◌==◌, ◌>>◌}

pub record CliqueRecord : Type 0 where
  pub master_id : ℕ
  pub offset_to_next_masters_sync : ℕ
  pub count_slaves : ℕ

abbrev pub record_count : ℕ
record_count = 6

-- The array is indexed by number; its six places are those below `record_count`.
pub record CliqueHistory : Type 0 where
  pub clique_records : ℕ → CliqueRecord
  pub current_clique_index : ℕ

abbrev pub initial_history : CliqueHistory
initial_history = record {
  clique_records = λ i. record { master_id = 0; offset_to_next_masters_sync = 0; count_slaves = 0 };
  current_clique_index = 0;
}

abbrev pub put_record : (ℕ → CliqueRecord) → ℕ → CliqueRecord → ℕ → CliqueRecord
put_record records i r j = if i == j then r else records j

-- `init` sets the first record, and leaves the index alone. `self` is System::ID().
unfoldable pub init_history : CliqueHistory → ℕ → CliqueHistory
init_history h self = record h {
  clique_records =
      put_record h.clique_records 0
        (record (h.clique_records 0) { master_id = self; offset_to_next_masters_sync = 0 });
}

unfoldable pub add : CliqueHistory → ℕ → ℕ → CliqueHistory
add h new_master_id offset_to_next_clique =
    if ltb h.current_clique_index (record_count - 1)
    then (let index = h.current_clique_index + 1 in
        let named =
          put_record h.clique_records index
            (record (h.clique_records index) { master_id = new_master_id }) in
        record {
          clique_records =
              put_record named 0
                (record (named 0) { offset_to_next_masters_sync = offset_to_next_clique });
          current_clique_index = index;
        })
    else h

unfoldable pub set_current_clique_record_to_former_clique : CliqueHistory → Checked CliqueHistory
set_current_clique_record_to_former_clique h = do
  check (ltb 0 h.current_clique_index)
  ok (record h { current_clique_index = h.current_clique_index - 1 })

unfoldable pub is_current_clique_record_self : CliqueHistory → ℕ → Bool
is_current_clique_record_self h self = (h.clique_records h.current_clique_index).master_id == self

-- The source reads the first record, not the current one.
unfoldable pub current_clique_record_master_id : CliqueHistory → ℕ
current_clique_record_master_id h = (h.clique_records 0).master_id

abbrev pub offset_to_current_clique : ℕ
offset_to_current_clique = 1
