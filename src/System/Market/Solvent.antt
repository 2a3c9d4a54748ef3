-- ===== src/System/Market/Solvent.antt =====
-- About the auctions of names across contracts/flon.system and contracts/flon.token: the balance of
-- the account of the bids.
use flon_contracts.Base.{
  ℕ, zero, suc, ◌≡◌, refl, sym, ap, subst, ◌∙◌, [], ◌∷◌, ◌++◌, some, String, ok, pos, negsuc, ℤ,
  ◌+ℤ◌, ◌-ℤ◌, ◌≤ℤ◌, ◌<ℤ◌, ◌==◌, Dict, lookup, insert, erase, sum_by, Unique, insert-Unique, AllRows,
  i64, eq_of_parts, wrap-Fits, int_laws, arith, Bool-cases, Result-cases, inl, inr, ◌^◌,
}
use flon_contracts.Chain.{Symbol, Asset, asset, AssetOps, InRange, Context}
use flon_contracts.Token.{TokenState, transfer}
use flon_contracts.Token.Balances.{balance}
use flon_contracts.Token.Transfers.{transfer_moves}
use flon_contracts.Token.Others.{transfer_auth}
use flon_contracts.System.NameBids.{NameBid, Payment, BidState, bidname, bidrefund}
use flon_contracts.System.NameBids.Effects.{
  open_bid, owed_for, claims, Denominated, bidrefund-Refunded,
}
use flon_contracts.System.NameBids.Bids.{bidname-Bid}
use flon_contracts.System.OnBlock.{ProductionState, FeeAction, names_account}
use flon_contracts.System.OnBlock.Index.{BidsFit}
use flon_contracts.System.OnBlock.Auctions.{Closed, closed}
use flon_contracts.System.Market.{Market, fees_account, pay, pay_fees}

-- The account of the bids has the open bids and the refunds that can be claimed; the tables are in
-- order, and nothing is left to be sent.
pub record Solvent (core : Symbol) (a : BidState) (k : TokenState) : Type 0 where
  pub in_core : a.core ≡ core
  pub idle : a.sent ≡ []
  pub funds : claims a ≤ℤ balance names_account core.code k
  pub unique_bids : Unique a.bids
  pub fit : BidsFit a.bids
  pub unique : AllRows Unique a.refunds
  pub denominated : Denominated core a.refunds

abbrev pub SolventMarket : Symbol → Market → Type 0
SolventMarket core m = Solvent core m.production.auctions m.tokens × (m.production.fees ≡ [])

insert-BidsFit :
    (n : ℕ) (b : NameBid) (bids : Dict NameBid)
    → InRange b.high_bid
    → BidsFit bids
    → BidsFit (insert n b bids)
insert-BidsFit n b [] r h = (r, tt)
insert-BidsFit n b ((j, w) ∷ bids) r h = elim (Bool-cases (n == j)) [
  | inl e ↦ rw e (r, h.1)
  | inr e ↦ rw e (h.0, insert-BidsFit n b bids r h.1)
]

pub erase-BidsFit : (n : ℕ) (bids : Dict NameBid) → BidsFit bids → BidsFit (erase n bids)
erase-BidsFit n [] h = tt
erase-BidsFit n ((j, w) ∷ bids) h = elim (Bool-cases (n == j)) [
  | inl e ↦ rw e (erase-BidsFit n bids h.1)
  | inr e ↦ rw e (h.0, erase-BidsFit n bids h.1)
]

more : (x' b x y z : ℤ) → x' ≡ x +ℤ b → x ≤ℤ y → z ≡ y +ℤ b → x' ≤ℤ z
more x' b x y z e h f = grind (int_laws, e, h, f)

less : (x' b x y z : ℤ) → x' +ℤ b ≡ x → x ≤ℤ y → z ≡ y -ℤ b → x' ≤ℤ z
less x' b x y z e h f = grind (int_laws, e, h, f)

kept_symbol :
    (core : Symbol) (s a : BidState)
    → s.core ≡ core
    → (Denominated s.core s.refunds → Denominated s.core a.refunds)
    → Denominated core s.refunds
    → Denominated core a.refunds
kept_symbol core s a e keep den =
    subst (λ y. Denominated y a.refunds) e (keep (subst (λ y. Denominated y s.refunds) (sym e) den))

lookup-BidsFit :
    (n : ℕ) (b : NameBid) (bids : Dict NameBid)
    → lookup n bids ≡ some b
    → BidsFit bids
    → InRange b.high_bid
lookup-BidsFit n b [] e h = ground arith
lookup-BidsFit n b ((j, w) ∷ bids) e h = elim (Bool-cases (n == j)) [
  | inl f ↦ let here : w ≡ b = ground arith in subst (λ x. InRange x.high_bid) here h.0
  | inr f ↦ lookup-BidsFit n b bids (ground arith) h.1
]

closed-InRange : (z : ℤ) → pos 0 <ℤ z → InRange z → InRange (i64 (pos 0 -ℤ z))
closed-InRange (pos zero) positive r = ground arith
closed-InRange (pos (suc n)) positive r =
    rw (eq_of_parts (pos 0 -ℤ pos (suc n)) (negsuc n) (omega int_laws))
      (rw (wrap-Fits (2 ^ 63) (negsuc n) (omega arith, omega (arith, r.0))) (ground (arith, r.0)))
closed-InRange (negsuc n) positive r = ground arith

closed_total : (a b x y : ℤ) → a +ℤ x ≡ b → a +ℤ y +ℤ x ≡ b +ℤ y
closed_total a b x y e = grind (int_laws, e)

module _ ⦃ops : AssetOps⦄ where
  pay_one :
      (d : Context) (memo : String) (bidder : ℕ) (q : Asset) (s k : TokenState)
      → pay d memo (Payment.pays_bid bidder q ∷ []) s ≡ ok k
      → transfer d bidder names_account q memo s ≡ ok k
  unfolding pay
  pay_one d memo bidder q s k h = elim (Result-cases (transfer d bidder names_account q memo s)) [
    | inl (t, e) ↦ ground (arith, e)
    | inr (m, e) ↦ ground (arith, e)
  ]

  refund_one :
      (d : Context) (memo : String) (bidder : ℕ) (q : Asset) (s k : TokenState)
      → pay d memo (Payment.refunds_bid bidder q ∷ []) s ≡ ok k
      → transfer d names_account bidder q memo s ≡ ok k
  unfolding pay
  refund_one d memo bidder q s k h =
      elim (Result-cases (transfer d names_account bidder q memo s)) [
        | inl (t, e) ↦ ground (arith, e)
        | inr (m, e) ↦ ground (arith, e)
      ]

  bid_symbol :
      (suffix : ℕ → ℕ) (c : Context) (bidder newname : ℕ) (bid : Asset) (s t : BidState)
      → bidname suffix c bidder newname bid s ≡ ok t
      → bid.symbol.code ≡ s.core.code
  unfolding bidname
  bid_symbol suffix c bidder newname bid s t h = ground arith

  pub bidname-Solvent :
      (suffix : ℕ → ℕ) (core : Symbol) (c d : Context) (bidder newname : ℕ) (bid : Asset)
      (memo : String) (s a : BidState) (j k : TokenState)
      → Solvent core s j
      → bidname suffix c bidder newname bid s ≡ ok a
      → pay d memo a.sent j ≡ ok k
      → Solvent core (record a { sent = [] }) k
  bidname-Solvent suffix core c d bidder newname bid memo s a j k v h p =
      let b = bidname-Bid suffix c bidder newname bid s a h v.unique in
      let sent : a.sent ≡ Payment.pays_bid bidder bid ∷ [] =
        b.paid ∙ ap (λ l. l ++ Payment.pays_bid bidder bid ∷ []) v.idle in
      let paid = pay_one d memo bidder bid j k (rw sent at p) in
      let (_, _, credit, _, _) = transfer_moves d bidder names_account bid memo j k paid in
      let (_, valid) = transfer_auth d bidder names_account bid memo j k paid in
      let code : bid.symbol.code ≡ core.code =
        bid_symbol suffix c bidder newname bid s a h ∙ ap (λ y. y.code) v.in_core in
      record {
        in_core = b.core ∙ v.in_core;
        idle = refl;
        funds =
            more (claims a) bid.amount (claims s) (balance names_account core.code j)
              (balance names_account core.code k) b.total v.funds (rw code at credit);
        unique_bids = rw b.bids (insert-Unique newname b.row s.bids v.unique_bids);
        fit = rw b.bids (
            insert-BidsFit newname b.row s.bids (rw b.amount (ops.is_valid_range bid valid)) v.fit);
        unique = b.unique;
        denominated = kept_symbol core s a v.in_core b.denominated v.denominated;
      }

  pub bidrefund-Solvent :
      (core : Symbol) (d : Context) (bidder newname : ℕ) (memo : String) (s a : BidState)
      (j k : TokenState)
      → Solvent core s j
      → bidrefund bidder newname s ≡ ok a
      → pay d memo a.sent j ≡ ok k
      → Solvent core (record a { sent = [] }) k
  bidrefund-Solvent core d bidder newname memo s a j k v h p =
      let r = bidrefund-Refunded bidder newname s a h v.unique in
      let q = r.row.amount in
      let sent : a.sent ≡ Payment.refunds_bid bidder q ∷ [] =
        r.paid ∙ ap (λ l. l ++ Payment.refunds_bid bidder q ∷ []) v.idle in
      let paid = refund_one d memo bidder q j k (rw sent at p) in
      let (_, debit, _, _, _) = transfer_moves d names_account bidder q memo j k paid in
      let in_core = r.symbol (subst (λ y. Denominated y s.refunds) (sym v.in_core) v.denominated) in
      let code : q.symbol.code ≡ core.code = ap (λ y. y.code) (in_core ∙ v.in_core) in
      record {
        in_core = r.core ∙ v.in_core;
        idle = refl;
        funds =
            less (claims a) q.amount (claims s) (balance names_account core.code j)
              (balance names_account core.code k) r.total v.funds (rw code at debit);
        unique_bids = rw r.bids v.unique_bids;
        fit = rw r.bids v.fit;
        unique = r.unique;
        denominated = kept_symbol core s a v.in_core r.denominated v.denominated;
      }

  fee_one :
      (d : Context) (memo : String) (from protocol : ℕ) (q r : Asset) (s k : TokenState)
      → pay_fees d memo (FeeAction.system_fees from q ∷ FeeAction.logsystemfee protocol r ∷ []) s
        ≡ ok k
      → transfer d from fees_account q memo s ≡ ok k
  unfolding pay_fees
  fee_one d memo from protocol q r s k h =
      elim (Result-cases (transfer d from fees_account q memo s)) [
        | inl (t, e) ↦ ground (arith, e)
        | inr (m, e) ↦ ground (arith, e)
      ]

  pub Closed-Solvent :
      (core : Symbol) (d : Context) (memo : String) (now : ℕ) (s : BidState) (t : ProductionState)
      (j k : TokenState)
      → Solvent core s j
      → Closed s [] now t
      → pay_fees d memo t.fees j ≡ ok k
      → Solvent core t.auctions k
  Closed-Solvent core d memo now s t j k v c p =
      let price = asset c.bid.high_bid s.core in
      let paid = fee_one d memo names_account names_account price price j k (rw c.price at p) in
      let (_, debit, _, _, _) = transfer_moves d names_account fees_account price memo j k paid in
      let code : s.core.code ≡ core.code = ap (λ y. y.code) v.in_core in
      let r = lookup-BidsFit c.name c.bid s.bids c.found v.fit in
      let total : sum_by open_bid (insert c.name (closed c.bid) s.bids) +ℤ c.bid.high_bid
          ≡ sum_by open_bid s.bids =
        rw c.changed at c.open_bids in
      rw c.changed (record {
        in_core = v.in_core;
        idle = v.idle;
        funds =
            less (claims (record s { bids = insert c.name (closed c.bid) s.bids })) c.bid.high_bid
              (claims s) (balance names_account core.code j) (balance names_account core.code k)
              (closed_total _ _ c.bid.high_bid (sum_by owed_for s.refunds) total) v.funds
              (rw code at debit);
        unique_bids = insert-Unique c.name (closed c.bid) s.bids v.unique_bids;
        fit =
            insert-BidsFit c.name (closed c.bid) s.bids (closed-InRange c.bid.high_bid c.was_open r)
              v.fit;
        unique = v.unique;
        denominated = v.denominated;
      })
