-- ===== src/System/Accounts/Names.antt =====
-- About `newaccount` of contracts/flon.system/src/flon.system.cpp: who may create which name.
use flon_contracts.Base.{
  ℕ, ◌≡◌, ◌≢◌, true, none, some, ok, pos, ◌<ℤ◌, ◌==◌, if◌then◌else◌, lookup, lookup-insert,
  lookup-erase, Option-cases, inl, inr, arith,
}
use flon_contracts.Chain.{Context}
use flon_contracts.System.NameBids.{NameBid}
use flon_contracts.System.Accounts.{AccountCreator, AccountState, has_dot, newaccount}

recreate :
    (suffix : ℕ → ℕ) (d : Context) (other n : ℕ) (t u : AccountState) (row : AccountCreator)
    → lookup n t.creators ≡ some row
    → newaccount suffix true d other n t ≢ ok u
unfolding newaccount
recreate suffix d other n t u row e h = ground arith

-- Once the contract is initialized, and unless the creator is the contract itself, a short name is
-- created by the highest bidder of its auction, which has been closed; the bid is gone then. The
-- auctions of the other names stay, the creator is recorded, and nobody can create the name again.
pub newaccount_claims :
    (suffix : ℕ → ℕ) (c : Context) (creator n : ℕ) (s t : AccountState)
    → newaccount suffix true c creator n s ≡ ok t
    → creator ≢ c.self
    → has_dot n ≡ true
    → suffix n ≡ n
    → (bid : NameBid) × (lookup n s.bids ≡ some bid)
      × (bid.high_bidder ≡ creator)
      × (bid.high_bid <ℤ pos 0)
      × ((k : ℕ) → lookup k t.bids ≡ (if k == n then none else lookup k s.bids))
      × (lookup n t.creators ≡ some (record { owner = n; creator = creator }))
      × ((d : Context) (other : ℕ) (u : AccountState) → newaccount suffix true d other n t ≢ ok u)
unfolding newaccount
newaccount_claims suffix c creator n s t h foreign dot own = elim (Option-cases (lookup n s.bids)) [
  | inl e ↦ ground (arith, foreign, dot, own)
  | inr (bid, e) ↦
      let row : AccountCreator = record { owner = n; creator = creator } in
      let written : lookup n t.creators ≡ some row =
        ground (arith, foreign, dot, own, e, lookup-insert n n row s.creators) in
      (
        bid,
        e,
        ground (arith, foreign, dot, own, e),
        ground (arith, foreign, dot, own, e),
        (λ k. ground (arith, foreign, dot, own, e, lookup-erase n k s.bids)),
        written,
        λ d other u.
            recreate suffix d other n t u (record { owner = n; creator = creator }) written,
      )
]

-- A name with a dot whose suffix is another name is created by the account of that suffix alone, and
-- no auction changes.
pub newaccount_suffix :
    (suffix : ℕ → ℕ) (c : Context) (creator n : ℕ) (s t : AccountState)
    → newaccount suffix true c creator n s ≡ ok t
    → creator ≢ c.self
    → has_dot n ≡ true
    → suffix n ≢ n
    → (creator ≡ suffix n) × (t.bids ≡ s.bids)
unfolding newaccount
newaccount_suffix suffix c creator n s t h foreign dot longer = (ground arith, ground arith)
