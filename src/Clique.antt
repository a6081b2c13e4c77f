-- ===== src/Clique.antt =====
-- src/clique, src/cliqueHistory and src/policy: the clique that a unit believes it is in.
pub mod CliqueHistory
pub mod DropoutMonitor
pub mod XmitPolicy
