-- ===== src/System/Market/Tests.antt =====
-- The auctions of names across the contracts at a concrete history.
use flon_contracts.Base.{
  ℕ, ◌*◌, ◌≡◌, refl, true, false, List, [], ◌∷◌, Option, none, pos, ◌+ℤ◌, ◌-ℤ◌, div_pos, wrap,
  arith,
}
use flon_contracts.Chain.{Symbol, asset, Context}
use flon_contracts.Chain.Instance.{checked_assets, valid_symbol, valid_asset, made}
use flon_contracts.Token.{transfer, add_balance, sub_balance}
use flon_contracts.System.Schedule.{TopProducer}
use flon_contracts.System.NameBids.{bidname, bidrefund}
use flon_contracts.System.OnBlock.{names_account}
use flon_contracts.System.Market.{Market, Action, pay, apply, run}
use flon_contracts.System.Market.Solvent.{SolventMarket}
use flon_contracts.System.Market.History.{run-SolventMarket}
use flon_contracts.Token.Balances.{balance}

abbrev flon : Symbol
flon = record { code = 1313819718; precision = 8 }

-- "hi"_n
abbrev wanted : ℕ
wanted = 7746191359077253120

abbrev system : Context
system = record {
  has_auth = λ _. true;
  is_account = λ _. false;
  self = 9;
  now = 3000000;
  now_sec = 3;
  now_slot = 6;
}

abbrev token_contract : Context
token_contract = record system { is_account = λ _. true }

abbrev market : Market
market = record {
  production = record {
    blockinfo = [];
    election = record {
      core = flon;
      election_activated_time = 0;
      reward_started_time = 0;
      initial_rewards_per_block = asset (pos 0) flon;
    };
    schedule = record {
      last_producer_schedule_update = 0;
      last_producer_schedule_size = 0;
      producers = [];
      finality = record {
        finalizer_keys = [];
        finalizers = [];
        last_prop_finalizers = none;
        fin_key_id_generator = none;
        policies = [];
      };
      schedules = [];
    };
    auctions = record { core = flon; bids = []; refunds = []; sent = [] };
    last_name_close = 0;
    total_produced_rewards = pos 0;
    total_unclaimed_rewards = pos 0;
    fees = [];
  };
  accounts = record { core = flon; bids = []; creators = []; limits = []; sent = [] };
  tokens = record {
    stats =
        (
          1313819718,
          record { supply = asset (pos 1000) flon; max_supply = asset (pos 5000) flon; issuer = 3 },
        )
        ∷ [];
    accounts =
        (7, (1313819718, record { balance = asset (pos 500) flon; payer = 7 }) ∷ [])
        ∷ (8, (1313819718, record { balance = asset (pos 500) flon; payer = 8 }) ∷ [])
        ∷ [];
    notified = [];
  };
}

abbrev history : List (Context × Context × Action)
history =
    (system, token_contract, Action.bids 7 wanted (asset (pos 100) flon) "")
    ∷ (system, token_contract, Action.bids 8 wanted (asset (pos 111) flon) "")
    ∷ (system, token_contract, Action.refunds 7 wanted "")
    ∷ []

abbrev same_name : ℕ → ℕ
same_name n = n

abbrev to_time_point : ℕ → ℕ
to_time_point slot = slot * 500000

abbrev refuses : List TopProducer → Option ℕ
refuses schedule = none

-- The account of the bids has the open bid, after the refund has been paid.
holds :
    balance names_account 1313819718 (run same_name to_time_point refuses history market).tokens
    ≡ pos 111
unfolding run apply pay bidname bidrefund transfer add_balance sub_balance checked_assets
    valid_symbol valid_asset made wrap ◌+ℤ◌ ◌-ℤ◌ div_pos
holds = refl

run-SolventMarket_example : SolventMarket flon (run same_name to_time_point refuses history market)
unfolding ◌+ℤ◌
run-SolventMarket_example =
    run-SolventMarket same_name to_time_point refuses flon history market (tt, (tt, (tt, tt)))
      (
        record {
          in_core = refl;
          idle = refl;
          funds = omega arith;
          unique_bids = tt;
          fit = tt;
          unique = tt;
          denominated = tt;
        },
        refl,
      )
