-- ===== src/System/Accounts/Tests.antt =====
-- New accounts and gas of contracts/flon.system at concrete inputs.
use flon_contracts.Base.{
  ℕ, ◌+◌, ◌^◌, ◌<◌, ◌≡◌, ◌≢◌, refl, true, false, [], ◌∷◌, ◌++◌, none, some, ok, pos, negsuc, ◌<ℤ◌,
  ◌==◌, lookup, if◌then◌else◌, arith,
}
use flon_contracts.Chain.{Symbol, asset, Context}
use flon_contracts.Chain.Instance.{checked_assets, valid_symbol}
use flon_contracts.System.NameBids.{NameBid}
use flon_contracts.System.Accounts.{
  AccountState, GasPayment, limits_of, dots_loop, has_dot, newaccount, buygas,
}
use flon_contracts.System.Accounts.Names.{newaccount_claims}
use flon_contracts.System.Accounts.Gas.{buygas_adds}

abbrev flon : Symbol
flon = record { code = 1313819718; precision = 8 }

-- "hi"_n
abbrev wanted : ℕ
wanted = 7746191359077253120

abbrev anybody : Context
anybody = record {
  has_auth = λ _. true;
  is_account = λ _. true;
  self = 9;
  now = 0;
  now_sec = 0;
  now_slot = 0;
}

abbrev won : NameBid
won = record { newname = wanted; high_bidder = 7; high_bid = negsuc 99; last_bid_time = 0 }

abbrev before : AccountState
before = record {
  core = flon;
  bids = (wanted, won) ∷ [];
  creators = [];
  limits = (7, record { gas = 10; is_unlimited = false }) ∷ [];
  sent = [];
}

abbrev claimed : AccountState
claimed = record before {
  bids = [];
  creators = (wanted, record { owner = wanted; creator = 7 }) ∷ [];
  limits =
      (7, record { gas = 10; is_unlimited = false })
      ∷ (wanted, record { gas = 0; is_unlimited = false })
      ∷ [];
}

claims : newaccount (λ n. n) true anybody 7 wanted before ≡ ok claimed
unfolding newaccount has_dot dots_loop
claims = refl

short : has_dot wanted ≡ true
unfolding has_dot dots_loop
short = refl

newaccount_claims_example :
    (bid : NameBid) × (lookup wanted before.bids ≡ some bid)
    × (bid.high_bidder ≡ 7)
    × (bid.high_bid <ℤ pos 0)
    × ((k : ℕ) → lookup k claimed.bids ≡ (if k == wanted then none else lookup k before.bids))
    × (lookup wanted claimed.creators ≡ some (record { owner = wanted; creator = 7 }))
    × ((d : Context) (other : ℕ) (u : AccountState)
        → newaccount (λ n. n) true d other wanted claimed ≢ ok u)
newaccount_claims_example =
    newaccount_claims (λ n. n) anybody 7 wanted before claimed claims (omega arith) short refl

abbrev suffixed : AccountState
suffixed = record before {
  creators = (wanted, record { owner = wanted; creator = 7 }) ∷ [];
  limits =
      (7, record { gas = 10; is_unlimited = false })
      ∷ (wanted, record { gas = 0; is_unlimited = false })
      ∷ [];
}

creates : newaccount (λ n. 7) true anybody 7 wanted before ≡ ok suffixed
unfolding newaccount has_dot dots_loop
creates = refl

abbrev creator : ℕ
creator = 7

abbrev bought : AccountState
bought = record before {
  limits = (7, record { gas = 110; is_unlimited = false }) ∷ [];
  sent = GasPayment.buys_gas 8 (asset (pos 100) flon) ∷ [];
}

buys : buygas anybody 8 7 (asset (pos 100) flon) before ≡ ok bought
unfolding buygas checked_assets valid_symbol
buys = refl

buygas_adds_example :
    ((limits_of 7 bought).gas ≡ (limits_of 7 before).gas + 100)
    × ((limits_of 7 bought).gas < 2 ^ 64)
    × (0 < 100)
    × (bought.sent ≡ before.sent ++ GasPayment.buys_gas 8 (asset (pos 100) flon) ∷ [])
    × ((limits_of 7 bought).is_unlimited ≡ (limits_of 7 before).is_unlimited)
    × ((other : ℕ) → other ≢ 7 → limits_of other bought ≡ limits_of other before)
buygas_adds_example =
    buygas_adds anybody 8 7 (asset (pos 100) flon) before bought (omega arith) buys
