-- ===== src/System/NameBids/Tests.antt =====
-- contracts/flon.system/src/name_bidding.cpp at concrete inputs.
use flon_contracts.Base.{ℕ, ◌≡◌, refl, true, false, [], ◌∷◌, ok, pos, wrap, ◌+ℤ◌, ◌-ℤ◌, div_pos}
use flon_contracts.Chain.{Symbol, asset, Context}
use flon_contracts.Chain.Instance.{checked_assets, valid_symbol, made}
use flon_contracts.System.NameBids.{Payment, BidState, bidname, bidrefund}
use flon_contracts.System.NameBids.Escrow.{Escrow}

abbrev flon : Symbol
flon = record { code = 1313819718; precision = 8 }

-- "hi"_n, which nobody has
abbrev wanted : ℕ
wanted = 7746191359077253120

abbrev bidding : Context
bidding = record {
  has_auth = λ _. true;
  is_account = λ _. false;
  self = 9;
  now = 3000000;
  now_sec = 3;
  now_slot = 6;
}

abbrev once_bid : BidState
once_bid = record {
  core = flon;
  bids =
      (
        wanted,
        record { newname = wanted; high_bidder = 7; high_bid = pos 100; last_bid_time = 1000000 },
      )
      ∷ [];
  refunds = [];
  sent = Payment.pays_bid 7 (asset (pos 100) flon) ∷ [];
}

abbrev twice_bid : BidState
twice_bid = record {
  core = flon;
  bids =
      (
        wanted,
        record { newname = wanted; high_bidder = 8; high_bid = pos 111; last_bid_time = 3000000 },
      )
      ∷ [];
  refunds = (wanted, (7, record { bidder = 7; amount = asset (pos 100) flon }) ∷ []) ∷ [];
  sent = Payment.pays_bid 7 (asset (pos 100) flon) ∷ Payment.pays_bid 8 (asset (pos 111) flon) ∷ [];
}

outbids : bidname (λ n. n) bidding 8 wanted (asset (pos 111) flon) once_bid ≡ ok twice_bid
unfolding bidname checked_assets valid_symbol made wrap ◌+ℤ◌ ◌-ℤ◌ div_pos
outbids = refl

once_bid-Escrow : Escrow once_bid
unfolding ◌+ℤ◌
once_bid-Escrow = record { funds = refl; unique = tt }

abbrev returned : BidState
returned = record {
  core = flon;
  bids =
      (
        wanted,
        record { newname = wanted; high_bidder = 8; high_bid = pos 111; last_bid_time = 3000000 },
      )
      ∷ [];
  refunds = (wanted, []) ∷ [];
  sent =
      Payment.pays_bid 7 (asset (pos 100) flon)
      ∷ Payment.pays_bid 8 (asset (pos 111) flon)
      ∷ Payment.refunds_bid 7 (asset (pos 100) flon)
      ∷ [];
}

returns : bidrefund 7 wanted twice_bid ≡ ok returned
unfolding bidrefund
returns = refl

twice_bid-Escrow : Escrow twice_bid
unfolding ◌+ℤ◌
twice_bid-Escrow = record { funds = refl; unique = ((refl, tt), tt) }
