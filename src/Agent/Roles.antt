-- ===== src/Agent/Roles.antt =====
-- src/syncAgentImp/state/role.cpp: which of the roles a unit plays, and who may begin to merge.

use sleep_sync_agent.Agent.{Agent, fisher, is_fisher, merger, no_fishing}
use sleep_sync_agent.Base.{Checked, check, ok, ◌>>◌}

unfoldable pub to_fisher : Agent → Agent
to_fisher a = record a { role = fisher }

unfoldable pub to_merger : Agent → Checked Agent
to_merger a = do check (is_fisher a.role); ok (record a { role = merger })

unfoldable pub to_no_fishing : Agent → Agent
to_no_fishing a = record a { role = no_fishing }
