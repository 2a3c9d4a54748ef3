-- ===== src/System/NameBids/Effects.antt =====
-- About contracts/flon.system/src/name_bidding.cpp: what a refund changes in the tables.
use flon_contracts.Base.{
  Unique, erase-Unique, sum_by-erase, ℕ, ◌≡◌, refl, subst, some, [], ◌∷◌, ◌++◌, ℤ, pos, ◌+ℤ◌, ltb_ℤ,
  ok, Dict, lookup, insert, erase, lookup_or, sum_by, sum_by-insert, AllRows, AllRows-insert,
  AllRows-erase, AllRows-lookup_or, if◌then◌else◌, int_laws, arith, Option-cases, inl, inr,
}
use flon_contracts.Chain.{Symbol, asset}
use flon_contracts.System.NameBids.{NameBid, BidRefund, Payment, BidState, scope, bidrefund}

abbrev pub open_bid : NameBid → ℤ
open_bid b = if ltb_ℤ (pos 0) b.high_bid then b.high_bid else pos 0

abbrev pub owed : BidRefund → ℤ
owed r = r.amount.amount

abbrev pub owed_for : Dict BidRefund → ℤ
owed_for rows = sum_by owed rows

-- The open bids and the refunds that can be claimed.
abbrev pub claims : BidState → ℤ
claims s = sum_by open_bid s.bids +ℤ sum_by owed_for s.refunds

-- All refunds are in the symbol.
abbrev pub InCore : Symbol → BidRefund → Type 0
InCore core r = r.amount.symbol ≡ core

abbrev pub Denominated : Symbol → Dict (Dict BidRefund) → Type 0
Denominated core refunds = AllRows (AllRows (InCore core)) refunds

pub in_scope :
    (newname : ℕ) (s : BidState)
    → Denominated s.core s.refunds
    → AllRows (InCore s.core) (scope newname s)
in_scope newname s den = AllRows-lookup_or (AllRows (InCore s.core)) [] newname s.refunds tt den

abbrev pub blank_refund : Symbol → BidRefund
blank_refund core = record { bidder = 0; amount = asset (pos 0) core }

claimed_sum :
    (x bids refs refs' sc rows : ℤ)
    → refs' +ℤ sc ≡ refs +ℤ rows
    → rows +ℤ x ≡ sc
    → bids +ℤ refs' +ℤ x ≡ bids +ℤ refs
claimed_sum x bids refs refs' sc rows f g = grind (int_laws, f, g)

-- What a refund that is claimed takes away.
pub record Refunded (bidder newname : ℕ) (s t : BidState) : Type 0 where
  pub row : BidRefund
  pub found : lookup bidder (scope newname s) ≡ some row
  pub total : claims t +ℤ row.amount.amount ≡ claims s
  pub unique : AllRows Unique t.refunds
  pub paid : t.sent ≡ s.sent ++ Payment.refunds_bid bidder row.amount ∷ []
  pub bids : t.bids ≡ s.bids
  pub core : t.core ≡ s.core
  pub symbol : Denominated s.core s.refunds → row.amount.symbol ≡ s.core
  pub denominated : Denominated s.core s.refunds → Denominated s.core t.refunds

pub bidrefund-Refunded :
    (bidder newname : ℕ) (s t : BidState)
    → bidrefund bidder newname s ≡ ok t
    → AllRows Unique s.refunds
    → Refunded bidder newname s t
unfolding bidrefund
bidrefund-Refunded bidder newname s t h u = elim (Option-cases (lookup bidder (scope newname s))) [
  | inl e ↦ ground arith
  | inr (r, e) ↦
      let sc = scope newname s in
      let rows = erase bidder sc in
      let z = blank_refund s.core in
      let there : Unique sc = AllRows-lookup_or Unique [] newname s.refunds tt u in
      let found : lookup_or z bidder sc ≡ r = ground arith in
      let written : t ≡ record s {
        refunds = insert newname rows s.refunds;
        sent = s.sent ++ Payment.refunds_bid bidder r.amount ∷ [];
      } =
        ground arith in
      rw written (record {
        row = r;
        found = e;
        total =
            claimed_sum r.amount.amount (sum_by open_bid s.bids) (sum_by owed_for s.refunds)
              (sum_by owed_for (insert newname rows s.refunds)) (owed_for sc) (owed_for rows)
              (sum_by-insert owed_for [] newname rows s.refunds refl)
              (rw found at (sum_by-erase owed z bidder sc refl there));
        unique = AllRows-insert Unique newname rows s.refunds (erase-Unique bidder sc there) u;
        paid = refl;
        bids = refl;
        core = refl;
        symbol = λ den.
            subst (λ q. q.amount.symbol ≡ s.core) found
              (AllRows-lookup_or (InCore s.core) z bidder sc refl (in_scope newname s den));
        denominated = λ den.
            AllRows-insert (AllRows (InCore s.core)) newname rows s.refunds
              (AllRows-erase (InCore s.core) bidder sc (in_scope newname s den)) den;
      })
]
