-- ===== src/System/OnBlock/Auctions.antt =====
-- About the auction of a name that contracts/flon.system/src/producer_pay.cpp closes at a block.
use flon_contracts.Base.{
  ℕ, ◌-◌, ◌*◌, ◌^◌, ◌<◌, ◌≡◌, ◌⊎◌, refl, sym, subst, ◌∙◌, ap, false, ◌&&◌, ℤ, pos, negsuc, ◌+ℤ◌,
  ◌-ℤ◌, ◌≤ℤ◌, ◌<ℤ◌, ltb_ℤ, ltb, i64, zero, suc, eq_of_parts, wrap-Fits, int_laws, Option, some, ok,
  arith, List, [], ◌∷◌, ◌++◌, Dict, lookup, insert, lookup_or, sum_by, sum_by-insert, Unique, All,
  Bool-cases, Option-cases, Result-cases, inl, inr,
}
use flon_contracts.Chain.{AssetOps, asset, InRange, Context}
use flon_contracts.System.Schedule.{TopProducer}
use flon_contracts.System.NameBids.{NameBid, BidState}
use flon_contracts.System.NameBids.Effects.{open_bid}
use flon_contracts.System.OnBlock.{
  ProductionState, FeeAction, names_account, highest_bid, close_auction, seconds_per_day,
  BlockHeader, reward_producer, slots_since, blocks_per_day, onblock,
}
use flon_contracts.System.OnBlock.Phases.{onblock_phases, scheduled}
use flon_contracts.System.OnBlock.Index.{BidsFit, highest_bid-lookup}

abbrev pub closed : NameBid → NameBid
closed b = record b { high_bid = i64 (pos 0 -ℤ b.high_bid) }

-- The auction of the highest open bid is closed: its price is what the open bids lose, and what is
-- sent to the account of the fees.
pub record Closed (a : BidState) (fees : List FeeAction) (now : ℕ) (t : ProductionState)
    : Type 0 where
  pub name : ℕ
  pub bid : NameBid
  pub found : lookup name a.bids ≡ some bid
  pub was_open : pos 0 <ℤ bid.high_bid
  pub highest : All (λ e. e.1.high_bid ≤ℤ bid.high_bid) a.bids
  pub day_old : seconds_per_day * 1000000 < now - bid.last_bid_time
  pub price :
      t.fees
      ≡ fees
        ++ FeeAction.system_fees names_account (asset bid.high_bid a.core)
          ∷ FeeAction.logsystemfee names_account (asset bid.high_bid a.core)
          ∷ []
  pub changed : t.auctions ≡ record a { bids = insert name (closed bid) a.bids }
  pub open_bids : sum_by open_bid t.auctions.bids +ℤ bid.high_bid ≡ sum_by open_bid a.bids

abbrev blank : NameBid
blank = record { newname = 0; high_bidder = 0; high_bid = pos 0; last_bid_time = 0 }

negated : (z : ℤ) → pos 0 <ℤ z → InRange z → ltb_ℤ (pos 0) (i64 (pos 0 -ℤ z)) ≡ false
negated (pos zero) positive r = ground arith
negated (pos (suc n)) positive r =
    rw (eq_of_parts (pos 0 -ℤ pos (suc n)) (negsuc n) (omega int_laws))
      (rw (wrap-Fits (2 ^ 63) (negsuc n) (omega arith, omega (arith, r.0))) (ground arith))
negated (negsuc n) positive r = ground arith

open_bid-closed :
    (b : NameBid) → pos 0 <ℤ b.high_bid → InRange b.high_bid → open_bid (closed b) ≡ pos 0
open_bid-closed b positive r = rw (negated b.high_bid positive r) refl

close_sum :
    (k : ℕ) (b : NameBid) (bids : Dict NameBid)
    → lookup k bids ≡ some b
    → pos 0 <ℤ b.high_bid
    → InRange b.high_bid
    → sum_by open_bid (insert k (closed b) bids) +ℤ b.high_bid ≡ sum_by open_bid bids
close_sum k b bids at positive r =
    let moved = sum_by-insert open_bid blank k (closed b) bids refl in
    let here : lookup_or blank k bids ≡ b = rw (at, lookup_or) refl in
    let was : open_bid b ≡ b.high_bid = ground (arith, positive) in
    let e =
      subst
        (λ q.
          sum_by open_bid (insert k (closed b) bids) +ℤ open_bid q
          ≡ sum_by open_bid bids +ℤ open_bid (closed b))
        here moved in
    cancels (sum_by open_bid (insert k (closed b) bids)) (sum_by open_bid bids) (open_bid b)
      (open_bid (closed b)) b.high_bid e was (open_bid-closed b positive r)
  where
    cancels : (a b x y h : ℤ) → a +ℤ x ≡ b +ℤ y → x ≡ h → y ≡ pos 0 → a +ℤ h ≡ b
    cancels a b x y h e f g = grind (int_laws, e, f, g)

module _ ⦃ops : AssetOps⦄ where
  -- A block closes no auction, or that of the highest open bid when it is more than a day old. It
  -- sends the price to the account of the fees, once, and the open bids lose just as much.
  pub close_auction-Closed :
      (c : Context) (slot : ℕ) (s t : ProductionState)
      → Unique s.auctions.bids
      → BidsFit s.auctions.bids
      → close_auction c slot s ≡ ok t
      → (s ≡ t) ⊎ ((t.last_name_close ≡ slot) × Closed s.auctions s.fees c.now t)
  unfolding close_auction
  close_auction-Closed c slot s t u fit h = elim (Option-cases (highest_bid s.auctions.bids)) [
    | inl e ↦ inl (ground arith)
    | inr ((k, b), e) ↦
        elim (Bool-cases
          (ltb_ℤ (pos 0) b.high_bid && ltb (seconds_per_day * 1000000) (c.now - b.last_bid_time))) [
            | inr f ↦ inl (ground arith)
            | inl f ↦ elim (Result-cases (ops.make b.high_bid s.auctions.core)) [
              | inr (m, g) ↦ ground arith
              | inl (price, g) ↦
                  let positive : pos 0 <ℤ b.high_bid = ground arith in
                  let (at, highest, r) = highest_bid-lookup s.auctions.bids k b u fit e positive in
                  let priced = (ops.make_sound b.high_bid s.auctions.core price g).0 in
                  let done : record s {
                    last_name_close = slot;
                    auctions = record s.auctions { bids = insert k (closed b) s.auctions.bids };
                    fees =
                        s.fees
                        ++ FeeAction.system_fees names_account price
                          ∷ FeeAction.logsystemfee names_account price
                          ∷ [];
                  }
                      ≡ t =
                    ground arith in
                  inr (
                    subst (λ x. (x.last_name_close ≡ slot) × Closed s.auctions s.fees c.now x) done
                      (
                        refl,
                        record {
                          name = k;
                          bid = b;
                          found = at;
                          was_open = positive;
                          highest = highest;
                          day_old = ground arith;
                          price =
                              ap
                                (λ x.
                                  s.fees
                                  ++ FeeAction.system_fees names_account x
                                    ∷ FeeAction.logsystemfee names_account x
                                    ∷ [])
                                priced;
                          changed = refl;
                          open_bids = close_sum k b s.auctions.bids at positive r;
                        },
                      ))
            ]
          ]
  ]

  reward_keeps :
      (now producer : ℕ) (s t : ProductionState)
      → reward_producer now producer s ≡ ok t
      → (t.auctions ≡ s.auctions) × (t.fees ≡ s.fees) × (t.last_name_close ≡ s.last_name_close)
  unfolding reward_producer
  reward_keeps now producer s t h = (ground arith, ground arith, ground arith)

  -- An `onblock` leaves the auctions and the fees as they are, or, more than a day after it last closed
  -- an auction, closes that of the highest open bid when this is more than a day old: it sends the
  -- price to the account of the fees, once, and the open bids lose just as much.
  pub onblock-Closed :
      (to_time_point : ℕ → ℕ) (host : List TopProducer → Option ℕ) (c : Context) (h : BlockHeader)
      (s t : ProductionState)
      → Unique s.auctions.bids
      → BidsFit s.auctions.bids
      → onblock to_time_point host c h s ≡ ok t
      → ((t.auctions ≡ s.auctions) × (t.fees ≡ s.fees))
        ⊎ ((blocks_per_day < slots_since s.last_name_close h.timestamp)
            × (t.last_name_close ≡ h.timestamp)
            × Closed s.auctions s.fees c.now t)
  onblock-Closed to_time_point host c h s t u fit done =
      elim (onblock_phases to_time_point host c h s t done) [
        | inl (table, e) ↦ inl (ap (λ x. x.auctions) (sym e), ap (λ x. x.fees) (sym e))
        | inr (table, s2, reward, last) ↦
            let (auctions, fees, close) = reward_keeps _ _ _ s2 reward in
            elim last [
              | inl e ↦
                  inl (ap (λ x. x.auctions) (sym e) ∙ auctions, ap (λ x. x.fees) (sym e) ∙ fees)
              | inr (inl e) ↦
                  inl (ap (λ x. x.auctions) (sym e) ∙ auctions, ap (λ x. x.fees) (sym e) ∙ fees)
              | inr (inr (day, closes)) ↦
                  elim (close_auction-Closed c h.timestamp (scheduled host h.timestamp s2) t
                    (subst (λ a. Unique a.bids) (sym auctions) u)
                    (subst (λ a. BidsFit a.bids) (sym auctions) fit) closes) [
                      | inl e ↦
                          inl (
                            ap (λ x. x.auctions) (sym e) ∙ auctions,
                            ap (λ x. x.fees) (sym e) ∙ fees,
                          )
                      | inr (slot, closed_one) ↦ inr (
                        subst (λ d. blocks_per_day < slots_since d h.timestamp) close day,
                        slot,
                        subst (λ a. Closed a s.fees c.now t) auctions
                            (subst (λ f. Closed s2.auctions f c.now t) fees closed_one),
                      )
                    ]
            ]
      ]
