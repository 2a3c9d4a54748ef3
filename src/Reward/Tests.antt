-- ===== src/Reward/Tests.antt =====
-- contracts/flon.reward/src/flon.reward.cpp at concrete inputs.
use flon_contracts.Base.{
  div_pos, ℕ, ◌+◌, ◌*◌, ◌-◌, ◌≤◌, ◌≡◌, refl, true, pos, ◌+ℤ◌, ◌-ℤ◌, ◌*ℤ◌, wrap, ◌∷◌, [], List, ok,
  arith,
}
use flon_contracts.Chain.{Symbol, asset, Context}
use flon_contracts.Chain.Instance.{checked_assets, valid_symbol, made}
use flon_contracts.Reward.Defs.{
  RewardState, Producer, high_precision, core_token, settle, serve, calc_rewards_per_vote,
  calc_voter_rewards, allocate_producer_rewards, init, regproducer, change_vote, addvote,
  claim_rewards, claimrewards, ontransfer,
}
use flon_contracts.Reward.Map.{emplace, assign, remove}
use flon_contracts.Reward.Voting.{voteproducer, merge, emplace_all, is_increasing}
use flon_contracts.Reward.Custody.{Custody}
use flon_contracts.Reward.Service.{row, settle_covered, reward_covered}
use flon_contracts.Reward.History.{Action, apply, run, run-Custody}

abbrev flon : Symbol
flon = record { code = 1313819718; precision = 8 }

-- "flon.reward"_n
abbrev reward_contract : ℕ
reward_contract = 6658906701581111808

abbrev signed : Context
signed = record {
  has_auth = λ _. true;
  is_account = λ _. true;
  self = reward_contract;
  now = 25000000;
  now_sec = 25;
  now_slot = 50;
}

abbrev begun : RewardState
begun = record {
  total_rewards = asset (pos 0) (record { code = 0; precision = 0 });
  voters = [];
  producers = [];
  sent = [];
  fresh_votes = pos 0;
}

-- A producer 3 and a voter 7, who claims all that the producer receives.
abbrev history : List (Context × Action)
history =
    (signed, Action.inits flon)
    ∷ (signed, Action.registers 3)
    ∷ (signed, Action.adds_vote 7 (pos 40))
    ∷ (signed, Action.votes 7 (3 ∷ []))
    ∷ (signed, Action.receives core_token 3 reward_contract (asset (pos 1000) flon))
    ∷ (signed, Action.claims 7)
    ∷ []

history_sent : (run history begun).sent ≡ record { to = 7; quantity = asset (pos 1000) flon } ∷ []
unfolding run apply init regproducer addvote change_vote voteproducer merge emplace_all
    is_increasing emplace assign remove ontransfer claimrewards claim_rewards
    allocate_producer_rewards settle serve calc_rewards_per_vote calc_voter_rewards checked_assets
    valid_symbol made wrap ◌+ℤ◌ ◌-ℤ◌ ◌*ℤ◌ div_pos
history_sent = refl

run-Custody_example : Custody (run history begun)
unfolding ◌+ℤ◌ checked_assets valid_symbol
run-Custody_example =
    run-Custody history begun (tt, (tt, (tt, (tt, (refl, (tt, tt)))))) (λ fresh. refl) refl

abbrev producer : Producer
producer = record {
  owner = 3;
  is_registered = true;
  total_rewards = asset (pos 1000) flon;
  allocating_rewards = asset (pos 1000) flon;
  allocated_rewards = asset (pos 0) flon;
  votes = pos 40;
  rewards_per_vote = pos (25 * high_precision);
  update_at = 0;
}

-- 10 of the 40 votes, last served at 0, are owed 250 of the 1000; the others 750.
settle_covered_example :
    (settle 50 flon (pos 10) (pos 5) (pos 0) (row flon producer 1000 0 1000 40) (asset (pos 8) flon)
      ≡ ok (
        record (row flon producer 750 250 1000 45) { update_at = 50 },
        pos (25 * high_precision),
        asset (pos 258) flon,
      ))
    × (750 * high_precision ≤ 750 * high_precision)
unfolding checked_assets valid_symbol wrap ◌+ℤ◌
settle_covered_example =
    settle_covered 50 flon producer 1000 0 40 10 0 (25 * high_precision) 8 (750 * high_precision)
      (pos 5) 45 refl refl (omega arith) (omega arith) (omega arith) (omega arith) (omega arith)
      (omega arith) refl

reward_covered_example :
    (r' : ℕ) × (calc_rewards_per_vote (pos 5) (asset (pos 1000) flon) (pos 40) ≡ ok (pos r'))
    × (5 ≤ r')
    × (0 + 40 * (r' - 5) ≤ (0 + 1000) * high_precision)
reward_covered_example =
    reward_covered flon 5 1000 40 0 40 0 (omega arith) (omega arith) (omega arith) (omega arith)

abbrev served : Producer
served = record (row flon producer 0 1000 1000 40) { update_at = 50 }

serves :
    allocate_producer_rewards 50 flon
      ((3, pos 0) ∷ [])
      (pos 40)
      (pos 0)
      ((3, producer) ∷ [])
      (asset (pos 8) flon)
    ≡ ok ((3, pos (25 * high_precision)) ∷ [], (3, served) ∷ [], asset (pos 1008) flon)
unfolding allocate_producer_rewards settle serve calc_voter_rewards checked_assets valid_symbol made
    wrap ◌+ℤ◌ ◌-ℤ◌ ◌*ℤ◌ div_pos
serves = refl
