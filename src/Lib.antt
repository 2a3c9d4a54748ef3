-- ===== src/Lib.antt =====
-- Models of the smart contracts of this repository, and theorems about them.
--
-- The parts and how they interact. flon.token keeps currencies and balances. flon.system lets
-- accounts stake votes on producers; it moves the staked tokens by inline transfers and reports
-- every change of votes to flon.reward by inline actions. flon.reward receives rewards as token
-- transfers from producers, and shares them among the producer's voters through an accumulator.
-- flon.msig keeps proposed transactions until enough accounts have approved them. pubkey.token
-- keeps tokens for public keys. flon.bios and flon.boot guard the privileged functions of the host
-- before flon.system takes their place, and flon.wrap executes transactions by the authority of the
-- host. An action takes its contract's tables and the context of the action, and returns the
-- changed tables with the inline actions that it sends, or the message of the check that failed. A
-- failed action changes nothing, as the chain rolls it back. Where contracts depend on each other,
-- their models are composed: System.Staking and System.Market run the token transfers that
-- flon.system sends by the model of flon.token, and the theorem on `init` runs the two actions that
-- it sends by the models of flon.token and flon.reward.
--
-- Base: the shared names; Base.Int has signed integers with the wrap-around of int64_t and __int128,
-- Base.Results the results of actions, Base.Tables, Base.Keys and Base.Scopes the tables, Base.Sorting
-- the order of sorted vectors and of indices.
-- Chain: the context of an action and eosio::asset. The asset type belongs to the contract library,
-- which is not in the repository: its operations are a record of operations with their documented
-- behaviour, an instance argument of the models. Chain.Instance fills it.
--
-- Token: contracts/flon.token/src/flon.token.cpp, and the readers of flon.token.hpp. `open` is
-- `open_account`. Token.Journal is the abstract view of it, a journal of postings to balances;
-- Balances, Steps, Supply, Openings, Actions and Transfers hold the other proofs, Others what the
-- actions of others do to a balance.
--
-- Reward: contracts/flon.reward/src/flon.reward.cpp. Reward.Defs has the actions (the loop body of
-- allocate_producer_rewards is `settle`, its inner block `serve`), Reward.Voting has voteproducer,
-- Reward.Map the operations of std::map. `fresh_votes` stands for the member `votes` of a new voter
-- row, which has no initial value.
--
-- System: contracts/flon.system. System.Voting is src/voting.cpp and `rmvproducer`, as they are
-- built with ENABLE_VOTING_PRODUCER; the addresses of the two vectors in voteproducer are
-- arguments, since the code compares iterators of different vectors. System.LimitAuth is
-- src/limit_auth_changes.cpp. System.BlockInfo is src/block_info.cpp and
-- include/flon.system/block_info.hpp; its block heights are taken modulo 2 ^ 32. System.NameBids is
-- src/name_bidding.cpp, as it is built with ENABLE_NAME_BID. System.Election is `cfgelection` of
-- src/producer_pay.cpp. System.Finalizers is src/finalizer_key.cpp: Finalizers.Registered, Found,
-- Kept and History are about the two tables of keys, Finalizers.Policy about
-- set_proposed_finalizers, Finalizers.Search about the search in actfinkey. The BLS operations and the hash are a record
-- of parameters. System.Schedule is update_elected_producers of src/voting.cpp (its loop is
-- `select`) and switchtosvnn of src/finalizer_key.cpp (its loop is `collect`); the index by votes
-- is the sorted table. System.OnBlock is `onblock` of src/producer_pay.cpp, with the parts
-- `reward_producer` and `close_auction`; it calls the models of block_info.cpp and of
-- update_elected_producers. OnBlock.Power is about the halving, OnBlock.Rewards and Totals about
-- the rewards, OnBlock.Index and Auctions about the auction that is closed. System.Accounts is
-- newaccount and setalimits of src/flon.system.cpp and buygas of src/delegate_bandwidth.cpp, over
-- the resource limits that the chain keeps. System.Parameters is the rest of src/flon.system.cpp:
-- Parameters.Packing is about the buffer of the parameters that setparams gives to the host,
-- Parameters.Wasm is wasmcfg, Parameters.Init is init. System.LimitAuth.Native has the actions of
-- include/flon.system/native.hpp that change authorities. System.Staking is the composition of the
-- voting actions with the token contract: Staking.Effects and Returns say what each action changes,
-- Summed and Backed what this does to the stakes, History is about sequences. System.Market is the composition
-- of name bids, blocks and newaccount with the token contract, with Market.Solvent and History;
-- NameBids.Effects, Bids and Escrow are about the single actions.
--
-- Bios: contracts/flon.bios. The decoding and the check of keys are parameters; the variable that
-- the code hashes in place of the decoded key is given by its address in each round. Bios.Finality
-- has the theorems on setfinalizer, Bios.Privileged the calls of privileged functions. Boot:
-- contracts/flon.boot. Wrap: contracts/flon.wrap; the reading of values from bytes is a parameter.
--
-- Msig: contracts/flon.msig/src/flon.msig.cpp; get_approvals_and_adjust_table is `get_approvals`,
-- and the two blocks of approve and unapprove that change the row of approvals are `give_approval`
-- and `take_back`. Packed transactions are read, and authorizations are checked, by a record of
-- parameters.
--
-- PubkeyToken: contracts/pubkey.token/src/pubkey.token.cpp; `set_admin` is `init`, `pay_out` the
-- transfers that newaccount and move send. PubkeyToken.Base58 is include/pubkey_utils.hpp, with the
-- table of digits as ranges of characters; a vector of bytes is a list from the lowest byte on
-- until it is turned around; the text ends at its first NUL, and the size of the buffer is computed
-- in 32 bits; Base58.Value is about the number that is decoded, Base58.Room about
-- the room in the buffer.
--
-- Names, keys and times are natural numbers. The loops run over lists, but for those of `power` and
-- `newaccount`, which count down, and the binary search of actfinkey, which has the length of the
-- vector as fuel: every round halves what is left, and Finalizers.Search proves that it is enough.
--
-- Not modelled: the helper headers safe.hpp, math.hpp and wasm_db.hpp of pubkey.token, which are
-- copies from other projects and are not called by what is modelled; the actions of flon.bios,
-- flon.boot and native.hpp with empty bodies, which the chain does itself; the contracts of the
-- test directories. In System.Staking the tables of flon.reward are left out: a refusal by that
-- contract makes an action fail, and a history has only to omit it. RAM payers are kept only in the
-- token's balance rows. The text of messages is shortened where the code puts names into it.
pub mod Base
pub mod Chain
pub mod Token
pub mod Reward
pub mod System
pub mod Msig
pub mod PubkeyToken
pub mod Bios
pub mod Boot
pub mod Wrap
