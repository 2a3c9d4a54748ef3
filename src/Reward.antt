-- ===== src/Reward.antt =====
-- contracts/flon.reward: the dispatcher of producer rewards to voters. A producer's rewards are
-- shared among its votes through an accumulator, `rewards_per_vote`, of which every voter remembers
-- the value up to which it has been served.
pub mod Map
pub mod Defs
pub mod Voting
pub mod Settle
pub mod Service
pub mod Custody
pub mod Ledger
pub mod History
mod Tests
