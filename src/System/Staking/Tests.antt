-- ===== src/System/Staking/Tests.antt =====
-- Stakes and refunds across the contracts at a concrete history.
use flon_contracts.Base.{◌≡◌, refl, true, List, [], ◌∷◌, pos, ◌+ℤ◌, ◌-ℤ◌, wrap, arith}
use flon_contracts.Chain.{Symbol, asset, Context}
use flon_contracts.Chain.Instance.{checked_assets, valid_symbol, valid_asset, made}
use flon_contracts.Token.{transfer, add_balance, sub_balance}
use flon_contracts.Token.Balances.{balance}
use flon_contracts.System.Voting.{vote_account, addvote, subvote, voterefund, update_producer_votes}
use flon_contracts.System.Staking.{Staking, Action, pay, vote, memo_of, direct, apply, run}
use flon_contracts.System.Staking.History.{BackedStakes, run-Backed}

abbrev flon : Symbol
flon = record { code = 1313819718; precision = 8 }

abbrev early : Context
early = record {
  has_auth = λ _. true;
  is_account = λ _. true;
  self = 9;
  now = 3000000;
  now_sec = 3;
  now_slot = 6;
}

-- Three days and a little later.
abbrev late : Context
late = record early { now = 259204000000; now_sec = 259204 }

abbrev bank : Staking
bank = record {
  voting = record {
    total_vote_stake = asset (pos 0) flon;
    election_activated_time = 1;
    voters = [];
    producers = [];
    refunds = [];
    sent = [];
  };
  tokens = record {
    stats =
        (
          1313819718,
          record { supply = asset (pos 500) flon; max_supply = asset (pos 5000) flon; issuer = 3 },
        )
        ∷ [];
    accounts = (7, (1313819718, record { balance = asset (pos 500) flon; payer = 7 }) ∷ []) ∷ [];
    notified = [];
  };
}

-- The first refund comes too early, and fails.
abbrev history : List (Context × Context × Action)
history =
    (early, early, Action.stakes 7 (asset (pos 100) flon))
    ∷ (early, early, Action.unstakes 7 (asset (pos 40) flon))
    ∷ (early, early, Action.refunds 7)
    ∷ (late, late, Action.refunds 7)
    ∷ (late, late, Action.unstakes 7 (asset (pos 10) flon))
    ∷ []

-- The account of the votes has the 50 tokens that are staked and the 10 that wait.
held : balance vote_account 1313819718 (run history bank).tokens ≡ pos 60
unfolding run apply vote direct memo_of pay addvote subvote voterefund update_producer_votes
    transfer add_balance sub_balance checked_assets valid_symbol valid_asset made wrap ◌+ℤ◌ ◌-ℤ◌
held = refl

run-Backed_example : BackedStakes 1313819718 (run history bank)
unfolding ◌+ℤ◌
run-Backed_example =
    run-Backed 1313819718 history bank (tt, (tt, (tt, (tt, (tt, tt)))))
      (record {
        summed = record { in_code = refl; total = refl; positive = tt };
        idle = refl;
        unique = tt;
        denominated = tt;
        funds = omega arith;
      })
