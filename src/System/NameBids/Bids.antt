-- ===== src/System/NameBids/Bids.antt =====
-- About contracts/flon.system/src/name_bidding.cpp: what a bid changes in the tables.
use flon_contracts.Base.{
  Unique, insert-Unique, ℕ, ◌≡◌, refl, subst, ap, sym, Option, ◌∙◌, true, none, some, [], ◌∷◌, ◌++◌,
  ℤ, pos, ◌+ℤ◌, ltb_ℤ, ok, Dict, lookup, insert, lookup_or, sum_by, sum_by-insert, AllRows,
  AllRows-insert, AllRows-lookup_or, int_laws, arith, Option-cases, Result-cases, inl, inr,
}
use flon_contracts.Chain.{Asset, AssetOps, Context}
use flon_contracts.System.NameBids.{
  NameBid, BidRefund, Payment, BidState, scope, refund_row, bidname,
}
use flon_contracts.System.NameBids.Effects.{
  open_bid, owed, owed_for, claims, InCore, Denominated, in_scope, blank_refund,
}

abbrev blank_bid : NameBid
blank_bid = record { newname = 0; high_bidder = 0; high_bid = pos 0; last_bid_time = 0 }

first_sum : (b bids bids' refs : ℤ) → bids' +ℤ pos 0 ≡ bids +ℤ b → bids' +ℤ refs ≡ bids +ℤ refs +ℤ b
first_sum b bids bids' refs f = grind (int_laws, f)

outbid_sum :
    (b high bids bids' refs refs' sc rows old : ℤ)
    → bids' +ℤ high ≡ bids +ℤ b
    → refs' +ℤ sc ≡ refs +ℤ rows
    → rows +ℤ old ≡ sc +ℤ (old +ℤ high)
    → bids' +ℤ refs' ≡ bids +ℤ refs +ℤ b
outbid_sum b high bids bids' refs refs' sc rows old f g i = grind (int_laws, f, g, i)

-- What a bid that may be missing adds to the sum.
abbrev open_of : Option NameBid → ℤ
open_of none = pos 0
open_of (some b) = open_bid b

opened_bid : (b : NameBid) → ltb_ℤ (pos 0) b.high_bid ≡ true → b.high_bid ≡ open_bid b
opened_bid b h = rw h refl

bid_sum :
    (newname : ℕ) (b : NameBid) (o : Option NameBid) (bids : Dict NameBid)
    → lookup newname bids ≡ o
    → ltb_ℤ (pos 0) b.high_bid ≡ true
    → sum_by open_bid (insert newname b bids) +ℤ open_of o ≡ sum_by open_bid bids +ℤ b.high_bid
bid_sum newname b o bids e h =
    let there : open_bid (lookup_or blank_bid newname bids) ≡ open_of o = old o e in
    rw (← there) (
      sum_by-insert open_bid blank_bid newname b bids refl
      ∙ ap (λ (x : ℤ). sum_by open_bid bids +ℤ x) (sym (opened_bid b h)))
  where
    old :
        (o : Option NameBid)
        → lookup newname bids ≡ o
        → open_bid (lookup_or blank_bid newname bids) ≡ open_of o
    old none e = rw (e, lookup_or) refl
    old (some a) e = rw (e, lookup_or) refl

zero_plus : (x : ℤ) → x ≡ pos 0 +ℤ x
zero_plus x = omega int_laws

module _ ⦃ops : AssetOps⦄ where
  refund_row-owed :
      (newname : ℕ) (current : NameBid) (s : BidState) (row : BidRefund)
      → refund_row newname current s ≡ ok row
      → owed row
        ≡ owed (lookup_or (blank_refund s.core) current.high_bidder (scope newname s))
          +ℤ current.high_bid
  refund_row-owed newname current s row h = elim (Result-cases (ops.make current.high_bid s.core)) [
    | inr (m, e) ↦ elim (Option-cases (lookup current.high_bidder (scope newname s))) [
      | inl f ↦ ground arith
      | inr (r, f) ↦ ground arith
    ]
    | inl (high, e) ↦
        let (made, _) = ops.make_sound current.high_bid s.core high e in
        elim (Option-cases (lookup current.high_bidder (scope newname s))) [
          | inl f ↦
              let taken : owed row ≡ current.high_bid = ground arith in
              let absent : lookup_or (blank_refund s.core) current.high_bidder (scope newname s)
                  ≡ blank_refund s.core =
                ground arith in
              rw absent (taken ∙ zero_plus current.high_bid)
          | inr (r, f) ↦ elim (Result-cases (ops.add r.amount high)) [
            | inr (m, g) ↦ ground arith
            | inl (amount, g) ↦
                let (sum, _, _) = ops.add_sound r.amount high amount g in ground arith
          ]
        ]
  ]

  bidname_first :
      (suffix : ℕ → ℕ) (c : Context) (bidder newname : ℕ) (bid : Asset) (s t : BidState)
      → lookup newname s.bids ≡ none
      → bidname suffix c bidder newname bid s ≡ ok t
      → (ltb_ℤ (pos 0) bid.amount ≡ true)
        × (t ≡ record s {
          bids =
              insert newname
                (record {
                  newname = newname;
                  high_bidder = bidder;
                  high_bid = bid.amount;
                  last_bid_time = c.now;
                })
                s.bids;
          sent = s.sent ++ Payment.pays_bid bidder bid ∷ [];
        })
  unfolding bidname
  bidname_first suffix c bidder newname bid s t e h = (ground arith, ground arith)

  bidname_outbid :
      (suffix : ℕ → ℕ) (c : Context) (bidder newname : ℕ) (bid : Asset) (s t : BidState)
      (current : NameBid)
      → lookup newname s.bids ≡ some current
      → bidname suffix c bidder newname bid s ≡ ok t
      → (row : BidRefund) × (refund_row newname current s ≡ ok row)
        × (ltb_ℤ (pos 0) bid.amount ≡ true)
        × (ltb_ℤ (pos 0) current.high_bid ≡ true)
        × (t ≡ record s {
          bids =
              insert newname
                (record current {
                  high_bidder = bidder;
                  high_bid = bid.amount;
                  last_bid_time = c.now;
                })
                s.bids;
          refunds = insert newname (insert current.high_bidder row (scope newname s)) s.refunds;
          sent = s.sent ++ Payment.pays_bid bidder bid ∷ [];
        })
  unfolding bidname
  bidname_outbid suffix c bidder newname bid s t current e h =
      elim (Result-cases (refund_row newname current s)) [
        | inr (m, f) ↦ ground arith
        | inl (row, f) ↦ (row, f, ground arith, ground arith, ground arith)
      ]

  refund_row-InCore :
      (newname : ℕ) (current : NameBid) (s : BidState) (row : BidRefund)
      → refund_row newname current s ≡ ok row
      → AllRows (InCore s.core) (scope newname s)
      → row.amount.symbol ≡ s.core
  refund_row-InCore newname current s row h rows =
      elim (Result-cases (ops.make current.high_bid s.core)) [
        | inr (m, e) ↦ elim (Option-cases (lookup current.high_bidder (scope newname s))) [
          | inl f ↦ ground arith
          | inr (r, f) ↦ ground arith
        ]
        | inl (high, e) ↦
            let (made, _) = ops.make_sound current.high_bid s.core high e in
            let old =
              AllRows-lookup_or (InCore s.core) (blank_refund s.core) current.high_bidder
                (scope newname s) refl rows in
            elim (Option-cases (lookup current.high_bidder (scope newname s))) [
              | inl f ↦ ground arith
              | inr (r, f) ↦ elim (Result-cases (ops.add r.amount high)) [
                | inr (m, g) ↦ ground arith
                | inl (amount, g) ↦
                    let (_, same, _) = ops.add_sound r.amount high amount g in
                    let same_row : lookup_or (blank_refund s.core) current.high_bidder
                          (scope newname s)
                        ≡ r =
                      ground arith in
                    let before : r.amount.symbol ≡ s.core = subst (InCore s.core) same_row old in
                    ground (arith, same, before)
              ]
            ]
      ]

  -- What a bid adds.
  pub record Bid (bidder newname : ℕ) (bid : Asset) (s t : BidState) : Type 0 where
    pub row : NameBid
    pub total : claims t ≡ claims s +ℤ bid.amount
    pub unique : AllRows Unique t.refunds
    pub paid : t.sent ≡ s.sent ++ Payment.pays_bid bidder bid ∷ []
    pub bids : t.bids ≡ insert newname row s.bids
    pub amount : row.high_bid ≡ bid.amount
    pub core : t.core ≡ s.core
    pub denominated : Denominated s.core s.refunds → Denominated s.core t.refunds

  pub bidname-Bid :
      (suffix : ℕ → ℕ) (c : Context) (bidder newname : ℕ) (bid : Asset) (s t : BidState)
      → bidname suffix c bidder newname bid s ≡ ok t
      → AllRows Unique s.refunds
      → Bid bidder newname bid s t
  bidname-Bid suffix c bidder newname bid s t h u = elim (Option-cases (lookup newname s.bids)) [
    | inl e ↦
        let (positive, written) = bidname_first suffix c bidder newname bid s t e h in
        let b : NameBid = record {
          newname = newname;
          high_bidder = bidder;
          high_bid = bid.amount;
          last_bid_time = c.now;
        } in
        rw written (record {
          row = b;
          total =
              first_sum bid.amount (sum_by open_bid s.bids)
                (sum_by open_bid (insert newname b s.bids)) (sum_by owed_for s.refunds)
                (bid_sum newname b none s.bids e positive);
          unique = u;
          paid = refl;
          bids = refl;
          amount = refl;
          core = refl;
          denominated = λ den. den;
        })
    | inr (current, e) ↦
        let (row, f, positive, opened, written) =
          bidname_outbid suffix c bidder newname bid s t current e h in
        let b : NameBid = record current {
          high_bidder = bidder;
          high_bid = bid.amount;
          last_bid_time = c.now;
        } in
        let z = blank_refund s.core in
        let sc = scope newname s in
        let rows = insert current.high_bidder row sc in
        let there : Unique sc = AllRows-lookup_or Unique [] newname s.refunds tt u in
        rw written (record {
          row = b;
          total =
              outbid_sum bid.amount (open_of (some current)) (sum_by open_bid s.bids)
                (sum_by open_bid (insert newname b s.bids)) (sum_by owed_for s.refunds)
                (sum_by owed_for (insert newname rows s.refunds)) (owed_for sc) (owed_for rows)
                (owed (lookup_or z current.high_bidder sc))
                (bid_sum newname b (some current) s.bids e positive)
                (sum_by-insert owed_for [] newname rows s.refunds refl)
                (sum_by-insert owed z current.high_bidder row sc refl
                  ∙ ap (λ (x : ℤ). owed_for sc +ℤ x)
                      (refund_row-owed newname current s row f
                        ∙ ap (λ (x : ℤ). owed (lookup_or z current.high_bidder sc) +ℤ x)
                            (opened_bid current opened)));
          unique =
              AllRows-insert Unique newname rows s.refunds
                (insert-Unique current.high_bidder row sc there) u;
          paid = refl;
          bids = refl;
          amount = refl;
          core = refl;
          denominated = λ den.
              AllRows-insert (AllRows (InCore s.core)) newname rows s.refunds
                (AllRows-insert (InCore s.core) current.high_bidder row sc
                  (refund_row-InCore newname current s row f (in_scope newname s den))
                  (in_scope newname s den))
                den;
        })
  ]
