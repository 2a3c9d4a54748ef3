-- ===== src/System/NameBids/Escrow.antt =====
-- About contracts/flon.system/src/name_bidding.cpp: what the account of the bids holds.
use flon_contracts.Base.{
  Unique, ℕ, ◌≡◌, ap, sym, ◌∙◌, [], ◌∷◌, ◌++◌, List, ℤ, pos, ◌+ℤ◌, ◌-ℤ◌, ok, AllRows, int_laws,
}
use flon_contracts.Chain.{Asset, AssetOps, Context}
use flon_contracts.System.NameBids.Effects.{claims, bidrefund-Refunded}
use flon_contracts.System.NameBids.Bids.{bidname-Bid}
use flon_contracts.System.NameBids.{Payment, BidState, bidname, bidrefund}

abbrev pub held : List Payment → ℤ
held [] = pos 0
held (Payment.pays_bid a q ∷ ps) = q.amount +ℤ held ps
held (Payment.refunds_bid a q ∷ ps) = (pos 0 -ℤ q.amount) +ℤ held ps

pub record Escrow (s : BidState) : Type 0 where
  pub funds : held s.sent ≡ claims s
  pub unique : AllRows Unique s.refunds

held-++ : (ps : List Payment) (p : Payment) → held (ps ++ p ∷ []) ≡ held ps +ℤ held (p ∷ [])
held-++ [] p = omega int_laws
held-++ (Payment.pays_bid a q ∷ ps) p = rw (held-++ ps p) (omega int_laws)
held-++ (Payment.refunds_bid a q ∷ ps) p = rw (held-++ ps p) (omega int_laws)

received : (h x : ℤ) → h +ℤ (x +ℤ pos 0) ≡ h +ℤ x
received h x = omega int_laws

returned_sum : (h x a b : ℤ) → h ≡ b → a +ℤ x ≡ b → h +ℤ (pos 0 -ℤ x +ℤ pos 0) ≡ a
returned_sum h x a b e f = grind (int_laws, e, f)

-- When `bidrefund` succeeds, the account of the bids still holds the sum of the open bids and of the
-- refunds that can be claimed, if it did before.
pub bidrefund-Escrow :
    (bidder newname : ℕ) (s t : BidState) → bidrefund bidder newname s ≡ ok t → Escrow s → Escrow t
bidrefund-Escrow bidder newname s t h inv =
    let r = bidrefund-Refunded bidder newname s t h inv.unique in
    record {
      funds =
          ap held r.paid
          ∙ held-++ s.sent (Payment.refunds_bid bidder r.row.amount)
          ∙ returned_sum (held s.sent) r.row.amount.amount (claims t) (claims s) inv.funds r.total;
      unique = r.unique;
    }

module _ ⦃ops : AssetOps⦄ where
  -- When `bidname` succeeds, the account of the bids still holds the sum of the open bids and of the
  -- refunds that can be claimed, if it did before.
  pub bidname-Escrow :
      (suffix : ℕ → ℕ) (c : Context) (bidder newname : ℕ) (bid : Asset) (s t : BidState)
      → bidname suffix c bidder newname bid s ≡ ok t
      → Escrow s
      → Escrow t
  bidname-Escrow suffix c bidder newname bid s t h inv =
      let b = bidname-Bid suffix c bidder newname bid s t h inv.unique in
      record {
        funds =
            ap held b.paid
            ∙ held-++ s.sent (Payment.pays_bid bidder bid)
            ∙ received (held s.sent) bid.amount
            ∙ ap (λ (x : ℤ). x +ℤ bid.amount) inv.funds
            ∙ sym b.total;
        unique = b.unique;
      }
