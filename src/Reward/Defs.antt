-- ===== src/Reward/Defs.antt =====
-- The tables and the actions of contracts/flon.reward/src/flon.reward.cpp.
use flon_contracts.Base.{
  ℕ, ◌^◌, Bool, true, false, not, ◌&&◌, ◌||◌, none, some, List, [], ◌∷◌, ◌++◌, ℤ, pos, pos_part,
  ◌+ℤ◌, ◌-ℤ◌, ◌*ℤ◌, div_pos, ltb_ℤ, leb_ℤ, i64, i128, ◌==◌, if◌then◌else◌, Result, ok, ◌>>=◌, ◌>>◌,
  check, or_fail, Dict, lookup, insert,
}
use flon_contracts.Chain.{Symbol, symbol_eq, Asset, asset, asset_eq, asset_ge, AssetOps, Context}

-- "flon"_n and "flon.token"_n
abbrev pub system_contract : ℕ
system_contract = 6658906300602122240

abbrev pub core_token : ℕ
core_token = 6658906741110259712

-- The accumulator counts in units of 10 ^ -18.
abbrev pub high_precision : ℕ
high_precision = 10 ^ 18

pub record Producer : Type 0 where
  pub owner : ℕ
  pub is_registered : Bool
  pub total_rewards : Asset
  pub allocating_rewards : Asset
  pub allocated_rewards : Asset
  pub votes : ℤ
  pub rewards_per_vote : ℤ
  pub update_at : ℕ

-- A voter's producers, each with its `last_rewards_per_vote`.
abbrev pub VotedProducerMap : Type 0
VotedProducerMap = List (ℕ × ℤ)

pub record Voter : Type 0 where
  pub owner : ℕ
  pub votes : ℤ
  pub producers : VotedProducerMap
  pub unclaimed_rewards : Asset
  pub claimed_rewards : Asset
  pub update_at : ℕ

-- The inline action `transfer` of the token contract.
pub record TransferOut : Type 0 where
  pub to : ℕ
  pub quantity : Asset

-- `fresh_votes` is what the member `votes` of a new voter row holds before it is assigned: the
-- struct gives it no initial value.
pub record RewardState : Type 0 where
  pub total_rewards : Asset
  pub voters : Dict Voter
  pub producers : Dict Producer
  pub sent : List TransferOut
  pub fresh_votes : ℤ

abbrev pub core_symbol : RewardState → Symbol
core_symbol s = s.total_rewards.symbol

-- A new producer row as its two `is_new` branches fill it.
abbrev pub new_producer : ℕ → Symbol → Producer
new_producer owner sym = record {
  owner = owner;
  is_registered = false;
  total_rewards = asset (pos 0) sym;
  allocating_rewards = asset (pos 0) sym;
  allocated_rewards = asset (pos 0) sym;
  votes = pos 0;
  rewards_per_vote = pos 0;
  update_at = 0;
}

abbrev pub new_voter : ℕ → ℤ → Symbol → Voter
new_voter owner garbage sym = record {
  owner = owner;
  votes = garbage;
  producers = [];
  unclaimed_rewards = asset (pos 0) sym;
  claimed_rewards = asset (pos 0) sym;
  update_at = 0;
}

abbrev pub require_auth : Context → ℕ → Result (Unit {0})
require_auth c a = check (c.has_auth a) "missing authority"

-- `db::set`: the row as it is found, or a new one.
abbrev pub row_or_new {ℓ} : {V : Type ℓ} → ℕ → V → Dict V → V
row_or_new k new d = elim (lookup k d) [ none ↦ new | some v ↦ v ]

unfoldable pub calc_rewards_per_vote : ℤ → Asset → ℤ → Result ℤ
calc_rewards_per_vote old rewards votes = do
  check (leb_ℤ (pos 0) rewards.amount && leb_ℤ (pos 0) votes) "rewards.amount >= 0 && votes >= 0"
  if ltb_ℤ (pos 0) rewards.amount && ltb_ℤ (pos 0) votes
      then (do
        let new =
            i128 (old +ℤ div_pos (i128 (rewards.amount *ℤ pos high_precision)) (pos_part votes))
        check (leb_ℤ old new) "calculated rewards_per_vote overflow"
        ok new)
      else ok old

module _ ⦃ops : AssetOps⦄ where
  unfoldable pub calc_voter_rewards : ℤ → ℤ → Symbol → Result Asset
  calc_voter_rewards votes rewards_per_vote sym = do
    check (leb_ℤ (pos 0) votes && leb_ℤ (pos 0) rewards_per_vote)
        "votes >= 0 && rewards_per_vote >= 0"
    check (leb_ℤ rewards_per_vote (i128 (votes *ℤ rewards_per_vote))) "calculated rewards overflow"
    let rewards = div_pos (i128 (votes *ℤ rewards_per_vote)) high_precision
    check (leb_ℤ (pos 0) rewards && ltb_ℤ rewards (pos (2 ^ 63))) "calculated rewards overflow"
    ops.make (i64 rewards) sym

  -- The rewards that a producer owes to `votes_old` votes since the voter was last served.
  unfoldable pub serve : Symbol → ℤ → ℤ → Producer → Asset → Result (Producer × Asset)
  serve sym votes_old rewards_per_vote_delta p out =
      if ltb_ℤ (pos 0) rewards_per_vote_delta && ltb_ℤ (pos 0) votes_old
      then (do
        check (leb_ℤ votes_old p.votes) "votes_old <= p.votes"
        new_rewards ← calc_voter_rewards votes_old rewards_per_vote_delta sym
        enough ← asset_ge p.allocating_rewards new_rewards
        check enough "producer allocating rewards insufficient"
        allocating ← ops.sub p.allocating_rewards new_rewards
        allocated ← ops.add p.allocated_rewards new_rewards
        total ← ops.add allocating allocated
        check (asset_eq p.total_rewards total)
            "p.total_rewards == p.allocating_rewards + p.allocated_rewards"
        out' ← ops.add out new_rewards
        ok (record p { allocating_rewards = allocating; allocated_rewards = allocated }, out'))
      else ok (p, out)

  -- What the loop of `allocate_producer_rewards` does to one producer row `p`, to the voter's
  -- `last_rewards_per_vote` for it and to the voter's unclaimed rewards `out`: serve the voter up to
  -- the producer's accumulator, and change the producer's votes.
  unfoldable pub settle : ℕ → Symbol → ℤ → ℤ → ℤ → Producer → Asset → Result (Producer × ℤ × Asset)
  settle now sym votes_old votes_delta last p out = do
    check (leb_ℤ last p.rewards_per_vote) "last_rewards_per_vote invalid"
    (served, out') ← serve sym votes_old (i128 (p.rewards_per_vote -ℤ last)) p out
    let votes = i64 (served.votes +ℤ votes_delta)
    check (leb_ℤ (pos 0) votes) "producer votes can not be negative"
    ok (record served { votes = votes; update_at = now }, served.rewards_per_vote, out')

  unfoldable pub allocate_producer_rewards :
      ℕ
      → Symbol
      → VotedProducerMap
      → ℤ
      → ℤ
      → Dict Producer
      → Asset
      → Result (VotedProducerMap × Dict Producer × Asset)
  allocate_producer_rewards now sym [] votes_old votes_delta table out = ok ([], table, out)
  allocate_producer_rewards now sym ((prod_name, last) ∷ rest) votes_old votes_delta table out = do
    (p, last', out') ←
        settle now sym votes_old votes_delta last
          (row_or_new prod_name (new_producer prod_name sym) table) out
    (rest', table', out'') ←
        allocate_producer_rewards now sym rest votes_old votes_delta (insert prod_name p table) out'
    ok ((prod_name, last') ∷ rest', table', out'')

  abbrev pub check_init : RewardState → Result (Unit {0})
  check_init s =
      check (ops.symbol_is_valid (core_symbol s)) "reward contract has not been initialized"

  unfoldable pub init : Context → Symbol → RewardState → Result RewardState
  init c core s = do
    require_auth c system_contract
    check (not (ops.symbol_is_valid (core_symbol s))) "reward contract has already been initialized"
    ok (record s { total_rewards = asset (pos 0) core })

  unfoldable pub regproducer : Context → ℕ → RewardState → Result RewardState
  regproducer c producer s = do
    check_init s
    require_auth c producer
    check (c.is_account producer) "producer account not found"
    let p = row_or_new producer (new_producer producer (core_symbol s)) s.producers
    ok (record s {
      producers =
          insert producer (record p { is_registered = true; update_at = c.now_slot }) s.producers;
    })

  unfoldable pub change_vote : Context → ℕ → ℤ → Bool → RewardState → Result RewardState
  change_vote c voter votes is_adding s = do
    require_auth c system_contract
    require_auth c voter
    check (ltb_ℤ (pos 0) votes) "votes must be positive"
    let v = row_or_new voter (new_voter voter s.fresh_votes (core_symbol s)) s.voters
    check (is_adding || leb_ℤ votes v.votes) "voter's votes insufficent"
    let votes_delta = if is_adding then votes else i64 (pos 0 -ℤ votes)
    (producers, table, unclaimed) ←
        allocate_producer_rewards c.now_slot (core_symbol s) v.producers v.votes votes_delta
          s.producers v.unclaimed_rewards
    let total = i64 (v.votes +ℤ votes_delta)
    check (leb_ℤ (pos 0) total) "voter's votes can not be negative"
    let v' = record v {
      votes = total;
      producers = producers;
      unclaimed_rewards = unclaimed;
      update_at = c.now_slot;
    }
    ok (record s { voters = insert voter v' s.voters; producers = table })

  unfoldable pub addvote : Context → ℕ → ℤ → RewardState → Result RewardState
  unfolding change_vote
  addvote c voter votes s = do check_init s; change_vote c voter votes true s

  unfoldable pub subvote : Context → ℕ → ℤ → RewardState → Result RewardState
  unfolding change_vote
  subvote c voter votes s = do check_init s; change_vote c voter votes false s

  unfoldable pub claim_rewards : Context → ℕ → RewardState → Result RewardState
  claim_rewards c voter s = do
    v ← or_fail (lookup voter s.voters) "voter info not found"
    (producers, table, unclaimed) ←
        (if ltb_ℤ (pos 0) v.votes
          then allocate_producer_rewards c.now_slot (core_symbol s) v.producers v.votes (pos 0)
              s.producers v.unclaimed_rewards
          else ok (v.producers, s.producers, v.unclaimed_rewards))
    check (ltb_ℤ (pos 0) unclaimed.amount) "no rewards to claim"
    claimed ← ops.add v.claimed_rewards unclaimed
    let v' = record v {
      producers = producers;
      unclaimed_rewards = record unclaimed { amount = pos 0 };
      claimed_rewards = claimed;
      update_at = c.now_slot;
    }
    ok (record s {
      voters = insert voter v' s.voters;
      producers = table;
      sent = s.sent ++ record { to = voter; quantity = unclaimed } ∷ [];
    })

  unfoldable pub claimrewards : Context → ℕ → RewardState → Result RewardState
  unfolding claim_rewards
  claimrewards c voter s = do check_init s; require_auth c voter; claim_rewards c voter s

  unfoldable pub claimfor : Context → ℕ → ℕ → RewardState → Result RewardState
  unfolding claim_rewards
  claimfor c claimer voter s = do check_init s; require_auth c claimer; claim_rewards c voter s

  -- A notification of a transfer in the token contract `first_receiver`.
  unfoldable pub ontransfer : Context → ℕ → ℕ → ℕ → Asset → RewardState → Result RewardState
  ontransfer c first_receiver from to quantity s =
      if first_receiver == core_token
        && symbol_eq quantity.symbol (core_symbol s)
        && not (from == c.self)
        && to == c.self
      then (do
        total ← ops.add s.total_rewards quantity
        p ← or_fail (lookup from s.producers) "producer(from) not found"
        check p.is_registered "producer(from) not registered"
        total_rewards ← ops.add p.total_rewards quantity
        allocating ← ops.add p.allocating_rewards quantity
        rewards_per_vote ← calc_rewards_per_vote p.rewards_per_vote quantity p.votes
        let p' = record p {
          total_rewards = total_rewards;
          allocating_rewards = allocating;
          rewards_per_vote = rewards_per_vote;
          update_at = c.now_slot;
        }
        ok (record s { total_rewards = total; producers = insert from p' s.producers }))
      else ok s
