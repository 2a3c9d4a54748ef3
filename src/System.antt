-- ===== src/System.antt =====
-- contracts/flon.system: the system contract, one module for each of its parts.
pub mod BlockInfo
pub mod LimitAuth
pub mod Voting
pub mod NameBids
pub mod Election
pub mod Finalizers
pub mod Schedule
pub mod OnBlock
pub mod Accounts
pub mod Parameters
pub mod Market
pub mod Staking
mod Tests
