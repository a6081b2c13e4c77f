-- ===== src/Clique/DropoutMonitor.antt =====
-- src/policy/dropoutMonitor.cpp: a master is lost after 81 sync slots without a sync message.
pub mod Exact
use sleep_sync_agent.Base.{
  Bool, Checked, check, false, if◌then◌else◌, leb, ltb, ok, true, u32, ℕ, ◌+◌, ◌>>=◌, ◌>>◌,
}
use sleep_sync_agent.Params.{max_missing_syncs_per_dropout}

unfoldable pub reset_dropout : ℕ
reset_dropout = 0

-- The counter of sync slots in a row without a sync message; the test advances it.
unfoldable pub is_dropout : ℕ → Checked (ℕ × Bool)
unfolding reset_dropout
is_dropout count = do
  check (leb count max_missing_syncs_per_dropout)
  let counted = u32 (count + 1)
  ok (if ltb max_missing_syncs_per_dropout counted then (reset_dropout, true) else (counted, false))
