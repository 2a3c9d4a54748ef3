-- ===== src/System/Tests.antt =====
-- contracts/flon.system at concrete inputs.
use flon_contracts.Base.{
  ◌⊎◌, none, Result, err, Bool-cases, ap, i64, sym, sum_by, ◌∙◌, wrap, ◌+ℤ◌, ◌-ℤ◌, ℕ, ◌+◌, ◌*◌, ◌<◌,
  ◌≤◌, ◌≡◌, ◌≢◌, ◌↔◌, refl, inl, inr, some, true, false, Bool, ℤ, pos, ◌==◌, ◌∷◌, [], ◌++◌, List,
  ok, arith, Dict, lookup, if◌then◌else◌,
}
use flon_contracts.Chain.{Symbol, asset, Context}
use flon_contracts.Chain.Instance.{checked_assets, valid_symbol}
use flon_contracts.System.LimitAuth.{LimitAuthChange, limitauthchg, contains, owner_permission}
use flon_contracts.System.LimitAuth.Native.{change, deletes, limitauthchg-change}
use flon_contracts.System.BlockInfo.{
  BlockInfoRecord, BlockInfoTable, BlockBatchInfo, add_to_blockinfo_table, rolling_window_size,
  last_record, no_error, get_latest_block_batch_info, find_batch, find_record,
}
use flon_contracts.System.BlockInfo.Window.{Window, add_to_blockinfo_table-Window}
use flon_contracts.System.BlockInfo.Batch.{InBatch, get_latest_block_batch_info-InBatch}
use flon_contracts.System.Voting.{
  VotingState, VoterInfo, ProducerInfo, Inline, classify, voteproducer, addvote, subvote,
  voterefund, vote_account, refund_delay_sec, update_producer_votes, is_increasing, same_names,
}
use flon_contracts.System.Voting.Merge.{all_changed, classify_disjoint}
use flon_contracts.System.Voting.Elected.{Elected, votes_of, weight}
use flon_contracts.System.Voting.Registration.{
  register_producer, regproducer, is_producer_registered,
}
use flon_contracts.System.Election.{ElectionConfig, cfgelection, cfgelection_frozen}
use flon_contracts.System.Voting.History.{Step, Steps, start, next, Steps-Elected}
use flon_contracts.System.Voting.Stakes.{subvote-voterefund}

abbrev yes : ℕ → Bool
yes _ = true

abbrev yes2 : ℕ → ℕ → Bool
yes2 _ _ = true

-- "active"_n
abbrev active_permission : ℕ
active_permission = 3617214756542218240

abbrev limited : Dict LimitAuthChange
limited =
    (
      7,
      record { version = 0; account = 7; allow_perms = owner_permission ∷ []; disallow_perms = [] },
    )
    ∷ []

limits : limitauthchg yes 7 (owner_permission ∷ []) [] [] ≡ ok limited
unfolding limitauthchg contains
limits = refl

limitauthchg-change_example :
    (change yes2 (deletes 5) 7 (some active_permission) limited ≡ ok tt) ↔ (false ≡ true)
unfolding contains
limitauthchg-change_example =
    limitauthchg-change yes2 yes 7 (some active_permission) (owner_permission ∷ []) [] [] limited
      limits (deletes 5)

abbrev block : ℕ → BlockInfoRecord
block h = record { version = 0; block_height = h; block_timestamp = 500 * h }

abbrev blocks : BlockInfoTable
blocks = block 41 ∷ block 42 ∷ block 43 ∷ []

add_to_blockinfo_table-Window_example :
    (t' : BlockInfoTable) × (add_to_blockinfo_table 43 22000 blocks ≡ ok t')
    × ((3 < rolling_window_size → Window 41 4 t') × (3 ≡ rolling_window_size → Window 42 3 t'))
add_to_blockinfo_table-Window_example =
    add_to_blockinfo_table-Window 41 3 43 22000 blocks (refl, (refl, (refl, tt))) (omega arith) refl
      (omega arith) (omega arith)

abbrev batch : BlockBatchInfo
batch = record {
  batch_start_height = 41;
  batch_start_timestamp = 20500;
  batch_current_end_height = 43;
  batch_current_end_timestamp = 21500;
}

reported : get_latest_block_batch_info 1 5 blocks ≡ no_error batch
unfolding get_latest_block_batch_info find_batch find_record last_record
reported = refl

get_latest_block_batch_info-InBatch_example :
    InBatch 1 5 batch
    × ((latest : BlockInfoRecord) × (last_record blocks ≡ some latest)
        × (43 ≡ latest.block_height)
        × (21500 ≡ latest.block_timestamp))
get_latest_block_batch_info-InBatch_example =
    get_latest_block_batch_info-InBatch 1 5 blocks batch reported

classify_disjoint_example :
    classify 1000 2000 (3 ∷ []) (3 ∷ 5 ∷ []) ≡ all_changed (3 ∷ []) (3 ∷ 5 ∷ [])
classify_disjoint_example = classify_disjoint 1000 2000 (3 ∷ []) (3 ∷ 5 ∷ []) (inl (omega arith))

abbrev flon : Symbol
flon = record { code = 1313819718; precision = 8 }

abbrev at_time : ℕ → Context
at_time t = record {
  has_auth = yes;
  is_account = yes;
  self = 9;
  now = 1000000 * t;
  now_sec = t;
  now_slot = 2 * t;
}

abbrev producer : ℕ → ℤ → ProducerInfo
producer owner votes = record {
  owner = owner;
  total_votes = votes;
  producer_key = 1;
  is_active = true;
  url = "";
  unclaimed_rewards = asset (pos 0) flon;
  last_claim_time = 0;
  location = 0;
  producer_authority = record { threshold = 1; keys = [] };
  reward_shared_ratio = 0;
}

abbrev voter : List ℕ → ℤ → ℕ → VoterInfo
voter producers votes t = record {
  owner = 7;
  producers = producers;
  votes = votes;
  last_unvoted_time = t;
}

abbrev voted : ℤ → List ℕ → ℤ → ℤ → ℕ → List Inline → VotingState
voted stake producers three five t sent = record {
  total_vote_stake = asset stake flon;
  election_activated_time = 100;
  voters = (7, voter producers stake t) ∷ [];
  producers = (3, producer 3 three) ∷ (5, producer 5 five) ∷ [];
  refunds = [];
  sent = sent;
}

abbrev three_elected : VotingState
three_elected = voted (pos 40) (3 ∷ []) (pos 40) (pos 0) 0 []

three_elected_votes :
    (k : ℕ) → votes_of k three_elected.producers ≡ (if k == 3 then pos 40 else pos 0)
three_elected_votes k = elim (Bool-cases (k == 3)) [
  | inl e ↦ rw (e, votes_of, lookup) refl
  | inr e ↦ elim (Bool-cases (k == 5)) [
    | inl f ↦ rw (e, f, votes_of, lookup) refl
    | inr f ↦ rw (e, f, votes_of, lookup) refl
  ]
]

three_elected_sum :
    (k : ℕ) → sum_by (weight k) three_elected.voters ≡ (if k == 3 then pos 40 else pos 0)
unfolding ◌+ℤ◌
three_elected_sum k = elim (Bool-cases (k == 3)) [ inl e ↦ rw e refl | inr e ↦ rw e refl ]

three_elected-Elected : Elected three_elected
three_elected-Elected k = ap i64 (three_elected_votes k ∙ sym (three_elected_sum k))

abbrev five_elected : VotingState
five_elected =
    voted (pos 40) (5 ∷ []) (pos 0) (pos 40) 400 (Inline.reward_voteproducer 7 (5 ∷ []) ∷ [])

revotes : voteproducer (at_time 200) 1000 2000 7 (5 ∷ []) three_elected ≡ ok five_elected
unfolding voteproducer classify update_producer_votes is_increasing same_names wrap ◌+ℤ◌ ◌-ℤ◌
revotes = refl

abbrev more_staked : VotingState
more_staked = voted (pos 50) (3 ∷ []) (pos 50) (pos 0) 0 (
    Inline.token_transfer 7 vote_account (asset (pos 10) flon)
    ∷ Inline.reward_addvote 7 (pos 10)
    ∷ [])

stakes : addvote (at_time 200) 7 (asset (pos 10) flon) three_elected ≡ ok more_staked
unfolding addvote update_producer_votes checked_assets valid_symbol wrap ◌+ℤ◌ ◌-ℤ◌
stakes = refl

abbrev less_staked : VotingState
less_staked =
    record (voted (pos 25) (3 ∷ []) (pos 25) (pos 0) 400
      (Inline.reward_subvote 7 (pos 15) ∷ Inline.deferred_voterefund 7 refund_delay_sec ∷ [])) {
        refunds =
            (7, record { owner = 7; request_time = 200; vote_staked = asset (pos 15) flon }) ∷ [];
      }

unstakes : subvote (at_time 200) 7 (asset (pos 15) flon) three_elected ≡ ok less_staked
unfolding subvote update_producer_votes checked_assets valid_symbol wrap ◌+ℤ◌ ◌-ℤ◌
unstakes = refl

-- The voter 7 stakes on the new producers 3 and 5, moves its votes, and unstakes.
abbrev founded : VotingState
founded = record {
  total_vote_stake = asset (pos 0) flon;
  election_activated_time = 100;
  voters = [];
  producers = [];
  refunds = [];
  sent = [];
}

abbrev after : VotingState → Result VotingState → VotingState
after s (ok t) = t
after s (err e) = s

abbrev with_three : VotingState
with_three = after founded (regproducer (at_time 200) [] 3 1 "" 0 none founded)

abbrev with_staked : VotingState
with_staked = after with_three (addvote (at_time 200) 7 (asset (pos 40) flon) with_three)

abbrev with_voted : VotingState
with_voted = after with_staked (voteproducer (at_time 200) 1000 2000 7 (3 ∷ []) with_staked)

abbrev with_unstaked : VotingState
with_unstaked = after with_voted (subvote (at_time 200) 7 (asset (pos 15) flon) with_voted)

four-Steps : Steps founded with_unstaked
unfolding regproducer register_producer is_producer_registered addvote voteproducer subvote classify
    update_producer_votes is_increasing same_names checked_assets valid_symbol wrap ◌+ℤ◌ ◌-ℤ◌
four-Steps =
    next
      (next
        (next (next start (Step.registers (at_time 200) [] 3 1 "" 0 none refl))
          (Step.stakes (at_time 200) 7 (asset (pos 40) flon) refl))
        (Step.votes (at_time 200) 1000 2000 7 (3 ∷ []) (voter [] (pos 40) 0) refl
          (inl (omega arith)) refl))
      (Step.unstakes (at_time 200) 7 (asset (pos 15) flon) refl)

Steps-Elected_example : Elected with_unstaked
Steps-Elected_example = Steps-Elected four-Steps (λ k. refl)

abbrev refunded : VotingState
refunded = record less_staked {
  refunds = [];
  sent = less_staked.sent ++ Inline.token_transfer vote_account 7 (asset (pos 15) flon) ∷ [];
}

refunds : voterefund (at_time 259400) 7 less_staked ≡ ok refunded
unfolding voterefund
refunds = refl

subvote-voterefund_example :
    ((200 + refund_delay_sec) * 1000000 ≤ 259400000000)
    × (refunded.sent
        ≡ less_staked.sent ++ Inline.token_transfer vote_account 7 (asset (pos 15) flon) ∷ [])
    × ((d : Context) (u : VotingState) → voterefund d 7 refunded ≢ ok u)
subvote-voterefund_example =
    subvote-voterefund (at_time 200) (at_time 259400) 7 (asset (pos 15) flon) three_elected
      less_staked refunded unstakes refunds

abbrev configured : ElectionConfig
configured = record {
  core = flon;
  election_activated_time = 100;
  reward_started_time = 0;
  initial_rewards_per_block = asset (pos 5) flon;
}

abbrev rewarding : ElectionConfig
rewarding = record configured { reward_started_time = 300000000 }

configures : cfgelection (at_time 200) 100 300000000 (asset (pos 5) flon) configured ≡ ok rewarding
unfolding cfgelection checked_assets valid_symbol
configures = refl

cfgelection_frozen_example :
    (rewarding.election_activated_time ≡ 100)
    × (rewarding.reward_started_time ≡ 300000000)
    × (100 ≤ 300000000)
    × ((0 < 100) × (100 ≤ 200000000) → 100 ≡ configured.election_activated_time)
    × ((0 < 0) × (0 ≤ 200000000) → 300000000 ≡ configured.reward_started_time)
    × ((configured.election_activated_time ≡ 0) ⊎ (200000000 < 100) → 200000000 < 100)
    × ((configured.reward_started_time ≡ 0) ⊎ (200000000 < 0) → 200000000 < 300000000)
cfgelection_frozen_example =
    cfgelection_frozen (at_time 200) 100 300000000 (asset (pos 5) flon) configured rewarding
      configures
