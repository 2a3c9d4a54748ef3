-- ===== src/System/Market/History.antt =====
-- Histories of the auctions of names across contracts/flon.system and contracts/flon.token.
use flon_contracts.Base.{
  ℕ, ◌≡◌, ◌⊎◌, refl, sym, subst, ◌∙◌, Bool, false, not, ◌&&◌, List, [], ◌∷◌, Option, some, String,
  ok, pos, ℤ, ◌+ℤ◌, ◌≤ℤ◌, ◌<ℤ◌, ◌==◌, Dict, lookup, erase, lookup_or, sum_by, sum_by-erase, Unique,
  erase-Unique, All, int_laws, arith, Bool-cases, Option-cases, Result-cases, inl, inr,
}
use flon_contracts.Chain.{Symbol, AssetOps, Context}
use flon_contracts.Token.{TokenState}
use flon_contracts.Token.Actions
use flon_contracts.Token.Balances.{balance}
use flon_contracts.Token.Others.{apply_keeps}
use flon_contracts.System.NameBids.{NameBid, BidState, bidname, bidrefund}
use flon_contracts.System.NameBids.Effects.{open_bid, owed_for}
use flon_contracts.System.Schedule.{TopProducer}
use flon_contracts.System.OnBlock.{ProductionState, BlockHeader, names_account, onblock}
use flon_contracts.System.OnBlock.Auctions.{Closed, onblock-Closed}
use flon_contracts.System.Accounts.{AccountState, has_dot, newaccount}
use flon_contracts.System.Market.{Market, with_auctions, Action, pay, pay_fees, apply, run}
use flon_contracts.System.Market.Solvent.{
  Solvent, SolventMarket, bidname-Solvent, bidrefund-Solvent, Closed-Solvent, erase-BidsFit,
}

-- What the creation of an account does to the auctions.
newaccount_bids :
    (suffix : ℕ → ℕ) (is_init : Bool) (c : Context) (creator n : ℕ) (s t : AccountState)
    → newaccount suffix is_init c creator n s ≡ ok t
    → (t.bids ≡ s.bids)
      ⊎ ((b : NameBid) × (lookup n s.bids ≡ some b)
          × (b.high_bid <ℤ pos 0)
          × (t.bids ≡ erase n s.bids))
unfolding newaccount
newaccount_bids suffix is_init c creator n s t h = elim (Option-cases (lookup n s.bids)) [
  | inl e ↦ inl (ground (arith, e))
  | inr (b, e) ↦
      elim (Bool-cases (is_init && not (creator == c.self) && has_dot n && suffix n == n)) [
        | inl short ↦ inr (b, e, ground (arith, e, short), ground (arith, e, short))
        | inr other ↦ inl (ground (arith, e, other))
      ]
]

abbrev blank : NameBid
blank = record { newname = 0; high_bidder = 0; high_bid = pos 0; last_bid_time = 0 }

-- An auction that has been closed adds nothing to the open bids.
erase_sum :
    (n : ℕ) (b : NameBid) (bids : Dict NameBid)
    → Unique bids
    → lookup n bids ≡ some b
    → b.high_bid <ℤ pos 0
    → sum_by open_bid (erase n bids) ≡ sum_by open_bid bids
erase_sum n b bids u e closed =
    let here : lookup_or blank n bids ≡ b = rw (e, lookup_or) refl in
    let nothing : open_bid b ≡ pos 0 = ground (arith, closed) in
    let moved = rw here at (sum_by-erase open_bid blank n bids refl u) in
    plus_nothing (sum_by open_bid (erase n bids)) (sum_by open_bid bids) (open_bid b) nothing moved
  where
    plus_nothing : (a b x : ℤ) → x ≡ pos 0 → a +ℤ x ≡ b → a ≡ b
    plus_nothing a b x e f = grind (int_laws, e, f)

module _ ⦃ops : AssetOps⦄ where
  claimed-Solvent :
      (core : Symbol) (n : ℕ) (b : NameBid) (s : BidState) (k : TokenState)
      → Solvent core s k
      → lookup n s.bids ≡ some b
      → b.high_bid <ℤ pos 0
      → Solvent core (record s { bids = erase n s.bids }) k
  claimed-Solvent core n b s k v e closed =
      let same = erase_sum n b s.bids v.unique_bids e closed in
      record {
        in_core = v.in_core;
        idle = v.idle;
        funds =
            subst (λ (x : ℤ). x +ℤ sum_by owed_for s.refunds ≤ℤ balance names_account core.code k)
              (sym same) v.funds;
        unique_bids = erase-Unique n s.bids v.unique_bids;
        fit = erase-BidsFit n s.bids v.fit;
        unique = v.unique;
        denominated = v.denominated;
      }

  richer-Solvent :
      (core : Symbol) (a : BidState) (j k : TokenState)
      → Solvent core a j
      → balance names_account core.code j ≤ℤ balance names_account core.code k
      → Solvent core a k
  richer-Solvent core a j k v more = record {
    in_core = v.in_core;
    idle = v.idle;
    funds = omega (arith, v.funds, more);
    unique_bids = v.unique_bids;
    fit = v.fit;
    unique = v.unique;
    denominated = v.denominated;
  }

  pay_fees_nothing :
      (d : Context) (memo : String) (j k : TokenState) → pay_fees d memo [] j ≡ ok k → j ≡ k
  unfolding pay_fees
  pay_fees_nothing d memo j k h = ground arith

  onblock-Solvent :
      (to_time_point : ℕ → ℕ) (set_proposed_producers : List TopProducer → Option ℕ) (core : Symbol)
      (c d : Context) (header : BlockHeader) (memo : String) (p t : ProductionState)
      (j k : TokenState)
      → Solvent core p.auctions j
      → p.fees ≡ []
      → onblock to_time_point set_proposed_producers c header p ≡ ok t
      → pay_fees d memo t.fees j ≡ ok k
      → Solvent core t.auctions k
  onblock-Solvent to_time_point set_proposed_producers core c d header memo p t j k v none_yet h
        paid =
      elim (onblock-Closed to_time_point set_proposed_producers c header p t v.unique_bids v.fit
        h) [
          | inl (auctions, fees) ↦
              let same = pay_fees_nothing d memo j k (rw (fees ∙ none_yet) at paid) in
              subst (λ x. Solvent core t.auctions x) same
                (subst (λ a. Solvent core a j) (sym auctions) v)
          | inr (_, _, closes) ↦
              Closed-Solvent core d memo c.now p.auctions t j k v
                (subst (λ f. Closed p.auctions f c.now t) none_yet closes) paid
        ]

  newaccount-Solvent :
      (suffix : ℕ → ℕ) (is_init : Bool) (core : Symbol) (c : Context) (creator n : ℕ)
      (s t : AccountState) (a : BidState) (k : TokenState)
      → newaccount suffix is_init c creator n (record s { bids = a.bids }) ≡ ok t
      → Solvent core a k
      → Solvent core (record a { bids = t.bids }) k
  newaccount-Solvent suffix is_init core c creator n s t a k h v =
      elim (newaccount_bids suffix is_init c creator n (record s { bids = a.bids }) t h) [
        | inl same ↦ subst (λ b. Solvent core (record a { bids = b }) k) (sym same) v
        | inr (b, e, closed_one, same) ↦
            subst (λ l. Solvent core (record a { bids = l }) k) (sym same)
              (claimed-Solvent core n b a k v e closed_one)
      ]

  -- Only the actions of the auctions take from the account of the bids: a direct action of the token
  -- contract has not its authority.
  abbrev pub Foreign : Context × Context × Action → Type 0
  Foreign (c, d, Action.moves a) = d.has_auth names_account ≡ false
  Foreign (c, d, _) = Unit

  module _ (suffix : ℕ → ℕ) (to_time_point : ℕ → ℕ)
      (set_proposed_producers : List TopProducer → Option ℕ) (core : Symbol) where
    apply-SolventMarket :
        (c d : Context) (a : Action) (m t : Market)
        → Foreign (c, d, a)
        → SolventMarket core m
        → apply suffix to_time_point set_proposed_producers c d a m ≡ ok t
        → SolventMarket core t
    unfolding apply
    apply-SolventMarket c d (Action.bids bidder newname bid memo) m t f v h =
        elim (Result-cases (bidname suffix c bidder newname bid m.production.auctions)) [
          | inr (e, bad) ↦ ground (arith, bad)
          | inl (a, done) ↦ elim (Result-cases (pay d memo a.sent m.tokens)) [
            | inr (e, bad) ↦ ground (arith, done, bad)
            | inl (k, paid) ↦
                let same : with_auctions a k m ≡ t = ground (arith, done, paid) in
                subst (SolventMarket core) same (
                  bidname-Solvent suffix core c d bidder newname bid memo m.production.auctions a
                      m.tokens k v.0 done paid,
                  v.1,
                )
          ]
        ]
    apply-SolventMarket c d (Action.refunds bidder newname memo) m t f v h =
        elim (Result-cases (bidrefund bidder newname m.production.auctions)) [
          | inr (e, bad) ↦ ground (arith, bad)
          | inl (a, done) ↦ elim (Result-cases (pay d memo a.sent m.tokens)) [
            | inr (e, bad) ↦ ground (arith, done, bad)
            | inl (k, paid) ↦
                let same : with_auctions a k m ≡ t = ground (arith, done, paid) in
                subst (SolventMarket core) same (
                  bidrefund-Solvent core d bidder newname memo m.production.auctions a m.tokens k
                      v.0 done paid,
                  v.1,
                )
          ]
        ]
    apply-SolventMarket c d (Action.blocks header memo) m t f v h =
        elim (Result-cases (onblock to_time_point set_proposed_producers c header m.production)) [
          | inr (e, bad) ↦ ground (arith, bad)
          | inl (p, done) ↦ elim (Result-cases (pay_fees d memo p.fees m.tokens)) [
            | inr (e, bad) ↦ ground (arith, done, bad)
            | inl (k, paid) ↦
                let same : record m { production = record p { fees = [] }; tokens = k } ≡ t =
                  ground (arith, done, paid) in
                subst (SolventMarket core) same (
                  onblock-Solvent to_time_point set_proposed_producers core c d header memo
                      m.production p m.tokens k v.0 v.1 done paid,
                  refl,
                )
          ]
        ]
    apply-SolventMarket c d (Action.creates creator n) m t f v h =
        let before : AccountState = record m.accounts { bids = m.production.auctions.bids } in
        let is_init = ops.symbol_is_valid m.production.auctions.core in
        elim (Result-cases (newaccount suffix is_init c creator n before)) [
          | inr (e, bad) ↦ ground (arith, bad)
          | inl (after, done) ↦
              let production : ProductionState = record m.production {
                auctions = record m.production.auctions { bids = after.bids };
              } in
              let same : record m { production = production; accounts = after } ≡ t =
                ground (arith, done) in
              subst (SolventMarket core) same (
                newaccount-Solvent suffix is_init core c creator n m.accounts after
                    m.production.auctions m.tokens done v.0,
                v.1,
              )
        ]
    apply-SolventMarket c d (Action.moves a) m t f v h =
        elim (Result-cases (Actions.apply d a m.tokens)) [
          | inr (e, bad) ↦ ground (arith, bad)
          | inl (k, done) ↦
              let same : record m { tokens = k } ≡ t = ground (arith, done) in
              let kept = apply_keeps d a m.tokens k names_account core.code f done in
              subst (SolventMarket core) same
                (richer-Solvent core m.production.auctions m.tokens k v.0 kept, v.1)
        ]

    -- After any history of bids, refunds, blocks, creations of accounts and actions of the token
    -- contract, the account of the bids has at least the sum of the open bids and of the refunds
    -- that can be claimed, in the core currency, if this held before, the tables were in order, and
    -- no direct action of the token contract has the authority of that account.
    pub run-SolventMarket :
        (history : List (Context × Context × Action)) (m : Market)
        → All Foreign history
        → SolventMarket core m
        → SolventMarket core (run suffix to_time_point set_proposed_producers history m)
    unfolding run
    run-SolventMarket [] m f v = v
    run-SolventMarket ((c, d, a) ∷ rest) m f v =
        elim (Result-cases (apply suffix to_time_point set_proposed_producers c d a m)) [
          | inl (t, e) ↦
              rw (e, run) (run-SolventMarket rest t f.1 (apply-SolventMarket c d a m t f.0 v e))
          | inr (x, e) ↦ rw (e, run) (run-SolventMarket rest m f.1 v)
        ]
