-- ===== src/Store.antt =====
-- crates/forge-store: the tables of the read model, and the statements on them. A statement is
-- modelled as it executes; `Projector` models what a failed one leads to.
pub mod Table
pub mod Users
pub mod Repos
pub mod Issues
pub mod Pulls
pub mod Ci
pub mod Hooks
use crabforge.Store.Users.{UserRecord}
use crabforge.Store.Repos.{RepoRecord}
use crabforge.Store.Issues.{IssueTables}
use crabforge.Store.Pulls.{PullTables}
use crabforge.Store.Ci.{CiTables}

-- What the projector's connection sees.
pub record Store : Type 0 where
  pub users : Table.Table UserRecord
  pub repos : Table.Table RepoRecord
  pub issues : IssueTables
  pub pulls : PullTables
  pub ci : CiTables
