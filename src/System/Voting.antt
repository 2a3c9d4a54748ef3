-- ===== src/System/Voting.antt =====
-- contracts/flon.system/src/voting.cpp: producers, voters, and the votes that voters stake.
pub mod Merge
pub mod Words
pub mod Elected
pub mod Voters
pub mod Stakes
pub mod Registration
pub mod History
use flon_contracts.Base.{
  ℕ, ◌+◌, ◌*◌, ◌^◌, Bool, true, false, not, ◌&&◌, ◌||◌, List, [], ◌∷◌, ◌++◌, Option, none, some,
  ltb, leb, ◌==◌, ℤ, pos, ◌+ℤ◌, ◌-ℤ◌, ltb_ℤ, leb_ℤ, i64, if◌then◌else◌, Result, ok, err, ◌>>=◌,
  ◌>>◌, check, or_fail, Dict, lookup, insert, erase, String,
}
use Prim.Native.String.{len}
use flon_contracts.Chain.{Symbol, symbol_eq, Asset, asset, asset_ge, AssetOps, Context}

-- "flon.vote"_n and "flon.reward"_n
abbrev pub vote_account : ℕ
vote_account = 6658906775620681728

abbrev pub refund_delay_sec : ℕ
refund_delay_sec = 3 * (24 * 3600)

abbrev pub max_vote_producer_count : ℕ
max_vote_producer_count = 30

abbrev pub ratio_boost : ℕ
ratio_boost = 10000

-- `eosio::block_signing_authority`: its keys with their weights. Keys are numbers, 0 the empty key.
pub record Authority : Type 0 where
  pub threshold : ℕ
  pub keys : List (ℕ × ℕ)

-- `producer_info` and `voter_info`, but for `revision`, which nothing reads or writes.
pub record ProducerInfo : Type 0 where
  pub owner : ℕ
  pub total_votes : ℤ
  pub producer_key : ℕ
  pub is_active : Bool
  pub url : String
  pub unclaimed_rewards : Asset
  pub last_claim_time : ℕ
  pub location : ℕ
  pub producer_authority : Authority
  pub reward_shared_ratio : ℕ

pub record VoterInfo : Type 0 where
  pub owner : ℕ
  pub producers : List ℕ
  pub votes : ℤ
  pub last_unvoted_time : ℕ

pub record VoteRefund : Type 0 where
  pub owner : ℕ
  pub request_time : ℕ
  pub vote_staked : Asset

-- The inline and deferred actions that the voting actions send.
pub data Inline : Type 0 where
  token_transfer : ℕ → ℕ → Asset → Inline
  reward_regproducer : ℕ → Inline
  reward_addvote reward_subvote : ℕ → ℤ → Inline
  reward_voteproducer : ℕ → List ℕ → Inline
  deferred_voterefund : ℕ → ℕ → Inline

-- The times are in the units of their types: `time_point_sec` for `request_time`, `block_timestamp`
-- for `last_unvoted_time`, and microseconds elsewhere. The tables of voting, and of the global state what they use. Each voter's refund table has one
-- row at most, under the voter. `election_activated_time` is 0 until it is configured.
pub record VotingState : Type 0 where
  pub total_vote_stake : Asset
  pub election_activated_time : ℕ
  pub voters : Dict VoterInfo
  pub producers : Dict ProducerInfo
  pub refunds : Dict VoteRefund
  pub sent : List Inline

abbrev pub require_auth : Context → ℕ → Result (Unit {0})
require_auth c a = check (c.has_auth a) "missing authority"

abbrev pub send : Inline → VotingState → VotingState
send a s = record s { sent = s.sent ++ a ∷ [] }

unfoldable pub deactivate : ProducerInfo → ProducerInfo
deactivate p = record p {
  producer_key = 0;
  producer_authority = record { threshold = 0; keys = [] };
  is_active = false;
}

unfoldable pub update_producer_votes : List ℕ → ℤ → Dict ProducerInfo → Result (Dict ProducerInfo)
update_producer_votes [] votes_delta table = ok table
update_producer_votes (k ∷ rest) votes_delta table = do
  p ← or_fail (lookup k table) "producer is not registered"
  check (not (ltb_ℤ (pos 0) votes_delta) || p.is_active) "producer is not active"
  let total = i64 (p.total_votes +ℤ votes_delta)
  check (leb_ℤ (pos 0) total) "producer's elected votes can not be negative"
  update_producer_votes rest votes_delta (insert k (record p { total_votes = total }) table)

-- The three lists that `voteproducer` sorts the old and the new producers into.
pub record Changes : Type 0 where
  pub removed_prods : List ℕ
  pub modified_prods : List ℕ
  pub added_prods : List ℕ

-- The loop compares the iterators themselves, that is the addresses `old` and `new` of the elements
-- of two vectors of 8-byte names.
unfoldable pub classify : ℕ → ℕ → List ℕ → List ℕ → Changes
classify old new [] [] = record { removed_prods = []; modified_prods = []; added_prods = [] }
classify old new [] (n ∷ news) =
    let r = classify old (new + 8) [] news in record r { added_prods = n ∷ r.added_prods }
classify old new (o ∷ olds) [] =
    let r = classify (old + 8) new olds [] in record r { removed_prods = o ∷ r.removed_prods }
classify old new (o ∷ olds) (n ∷ news) = elim (ltb old new) [
  | true ↦
      let r = classify (old + 8) new olds (n ∷ news) in
      record r { removed_prods = o ∷ r.removed_prods }
  | false ↦ elim (ltb new old) [
    | true ↦
        let r = classify old (new + 8) (o ∷ olds) news in
        record r { added_prods = n ∷ r.added_prods }
    | false ↦
        let r = classify (old + 8) (new + 8) olds news in
        record r { modified_prods = o ∷ r.modified_prods }
  ]
]

unfoldable pub is_increasing : List ℕ → Bool
is_increasing [] = true
is_increasing (x ∷ []) = true
is_increasing (x ∷ y ∷ rest) =
    let more = is_increasing (y ∷ rest) in if ltb x y then more else false

abbrev pub length : List ℕ → ℕ
length [] = 0
length (x ∷ xs) = 1 + length xs

unfoldable pub same_names : List ℕ → List ℕ → Bool
same_names [] [] = true
same_names (x ∷ xs) (y ∷ ys) = x == y && same_names xs ys
same_names _ _ = false

-- `old` and `new` are the addresses of the voter's vector of producers and of the argument's.
unfoldable pub voteproducer : Context → ℕ → ℕ → ℕ → List ℕ → VotingState → Result VotingState
voteproducer c old new voter_name producers s = do
  require_auth c voter_name
  check (leb (length producers) max_vote_producer_count) "attempt to vote for too many producers"
  check (is_increasing producers) "producer votes must be unique and sorted"
  v ← or_fail (lookup voter_name s.voters) "voter not found"
  check (leb_ℤ (pos 0) v.votes) "voter_itr->votes >= 0"
  check (not (same_names v.producers producers)) "producers no change"
  let changes = classify old new v.producers producers
  t1 ← update_producer_votes changes.removed_prods (i64 (pos 0 -ℤ v.votes)) s.producers
  t2 ← update_producer_votes changes.modified_prods (pos 0) t1
  t3 ← update_producer_votes changes.added_prods v.votes t2
  let v' = record v { producers = producers; last_unvoted_time = c.now_slot }
  ok (
      send (Inline.reward_voteproducer voter_name producers)
        (record s { producers = t3; voters = insert voter_name v' s.voters }))

module _ ⦃ops : AssetOps⦄ where
  abbrev pub core_symbol : VotingState → Result Symbol
  core_symbol s = do
    check (ops.symbol_is_valid s.total_vote_stake.symbol)
        "system contract must first be initialized"
    ok s.total_vote_stake.symbol

  unfoldable pub addvote : Context → ℕ → Asset → VotingState → Result VotingState
  addvote c voter vote_staked s = do
    require_auth c voter
    core ← core_symbol s
    check (symbol_eq vote_staked.symbol core) "vote_staked must be core symbol"
    check (ltb_ℤ (pos 0) vote_staked.amount) "vote_staked must be positive"
    stake ←
        (if leb_ℤ s.total_vote_stake.amount (pos 0) && leb_ℤ (pos 0) s.total_vote_stake.amount
          then ok vote_staked
          else ops.add s.total_vote_stake vote_staked)
    let votes = vote_staked.amount
    let s1 =
        send (Inline.token_transfer voter vote_account vote_staked)
          (record s { total_vote_stake = stake })
    s2 ← elim (lookup voter s.voters) as (λ _. Result VotingState) [
      | some v ↦ do
        table ← update_producer_votes v.producers votes s.producers
        ok (record s1 {
          producers = table;
          voters = insert voter (record v { votes = i64 (v.votes +ℤ votes) }) s.voters;
        })
      | none ↦ ok (record s1 {
        voters =
            insert voter
              (record { owner = voter; producers = []; votes = votes; last_unvoted_time = 0 })
              s.voters;
      })
    ]
    ok (send (Inline.reward_addvote voter votes) s2)

  unfoldable pub subvote : Context → ℕ → Asset → VotingState → Result VotingState
  subvote c voter vote_staked s = do
    require_auth c voter
    check (not (s.election_activated_time == 0) && leb s.election_activated_time c.now)
        "cannot subvote until the election is activated"
    core ← core_symbol s
    check (symbol_eq vote_staked.symbol core) "vote_staked must be core symbol"
    check (ltb_ℤ (pos 0) vote_staked.amount) "vote_staked must be positive"
    let votes = vote_staked.amount
    v ← or_fail (lookup voter s.voters) "voter not found"
    check (leb_ℤ votes v.votes) "votes insufficent"
    enough ← asset_ge s.total_vote_stake vote_staked
    check enough "Total vote stake insufficent"
    stake ← ops.sub s.total_vote_stake vote_staked
    check (elim (lookup voter s.refunds) as (λ _. Bool) [ none ↦ true | some _ ↦ false ])
        "This account already has a vote refund"
    table ← update_producer_votes v.producers (i64 (pos 0 -ℤ votes)) s.producers
    let v' = record v { votes = i64 (v.votes -ℤ votes); last_unvoted_time = c.now_slot }
    let refund : VoteRefund = record {
      owner = voter;
      request_time = c.now_sec;
      vote_staked = vote_staked;
    }
    ok (
        send (Inline.deferred_voterefund voter refund_delay_sec) (
          send (Inline.reward_subvote voter votes) (record s {
            total_vote_stake = stake;
            producers = table;
            voters = insert voter v' s.voters;
            refunds = insert voter refund s.refunds;
          })))

unfoldable pub voterefund : Context → ℕ → VotingState → Result VotingState
voterefund c owner s = do
  r ← or_fail (lookup owner s.refunds) "no vote refund found"
  check (leb ((r.request_time + refund_delay_sec) * 1000000) c.now) "refund period not mature yet"
  ok (
      send (Inline.token_transfer vote_account r.owner r.vote_staked)
        (record s { refunds = erase owner s.refunds }))
