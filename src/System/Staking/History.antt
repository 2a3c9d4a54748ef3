-- ===== src/System/Staking/History.antt =====
-- Histories of stakes and refunds across contracts/flon.system and contracts/flon.token.
use flon_contracts.Base.{
  ℕ, ◌≡◌, refl, sym, subst, false, List, [], ◌∷◌, String, ok, All, arith, Result-cases, inl, inr,
}
use flon_contracts.Chain.{AssetOps, Context}
use flon_contracts.Token.{TokenState}
use flon_contracts.Token.Actions
use flon_contracts.Token.Others.{apply_keeps}
use flon_contracts.System.Voting.{VotingState, vote_account}
use flon_contracts.System.Staking.{Staking, settled, pay, Action, vote, memo_of, direct, apply, run}
use flon_contracts.System.Staking.Summed.{emptied}
use flon_contracts.System.Staking.Backed.{
  Backed, addvote-Backed, subvote-Backed, voterefund-Backed, voteproducer-Backed,
}

abbrev pub BackedStakes : ℕ → Staking → Type 0
BackedStakes code s = Backed code s.voting s.tokens

module _ ⦃ops : AssetOps⦄ where
  -- Only the actions of voting take from the account of the votes: a direct action of the token
  -- contract has not its authority.
  abbrev pub Foreign : Context × Context × Action → Type 0
  Foreign (c, d, Action.moves a) = d.has_auth vote_account ≡ false
  Foreign (c, d, _) = Unit

  pay_nothing : (d : Context) (memo : String) (j k : TokenState) → pay d memo [] j ≡ ok k → j ≡ k
  unfolding pay
  pay_nothing d memo j k h = ground arith

  moves-Backed :
      (code : ℕ) (d : Context) (a : Actions.Action) (s : VotingState) (i j k : TokenState)
      → d.has_auth vote_account ≡ false
      → Backed code s i
      → Actions.apply d a i ≡ ok j
      → pay d "" s.sent j ≡ ok k
      → Backed code (record s { sent = [] }) k
  moves-Backed code d a s i j k foreign v h p =
      let same = pay_nothing d "" j k (rw v.idle at p) in
      let kept = apply_keeps d a i j vote_account code foreign h in
      subst (Backed code (record s { sent = [] })) same (record {
        summed = emptied code s v.summed;
        idle = refl;
        unique = v.unique;
        denominated = v.denominated;
        funds = omega (arith, v.funds, kept);
      })

  apply-Backed :
      (code : ℕ) (c d : Context) (a : Action) (s : Staking) (t : VotingState) (j k : TokenState)
      → Foreign (c, d, a)
      → BackedStakes code s
      → vote c a s.voting ≡ ok t
      → direct d a s.tokens ≡ ok j
      → pay d (memo_of a) t.sent j ≡ ok k
      → Backed code (record t { sent = [] }) k
  unfolding vote direct memo_of
  apply-Backed code c d (Action.stakes voter q) s t j k f v h m p =
      let same : s.tokens ≡ j = ground arith in
      addvote-Backed code c d voter q "addvote" s.voting t j k (subst (Backed code s.voting) same v)
        h p
  apply-Backed code c d (Action.unstakes voter q) s t j k f v h m p =
      let same : s.tokens ≡ j = ground arith in
      subvote-Backed code c d voter q "" s.voting t j k (subst (Backed code s.voting) same v) h p
  apply-Backed code c d (Action.refunds owner) s t j k f v h m p =
      let same : s.tokens ≡ j = ground arith in
      voterefund-Backed code c d owner "voterefund" s.voting t j k
        (subst (Backed code s.voting) same v) h p
  apply-Backed code c d (Action.votes old new voter producers) s t j k f v h m p =
      let same : s.tokens ≡ j = ground arith in
      voteproducer-Backed code c d old new voter producers "" s.voting t j k
        (subst (Backed code s.voting) same v) h p
  apply-Backed code c d (Action.moves a) s t j k f v h m p =
      let same : s.voting ≡ t = ground arith in
      subst (λ x. Backed code (record x { sent = [] }) k) same
        (moves-Backed code d a s.voting s.tokens j k f v m
          (subst (λ (x : VotingState). pay d "" x.sent j ≡ ok k) (sym same) p))

  -- What an action that succeeds has done.
  apply_inv :
      (c d : Context) (a : Action) (s u : Staking)
      → apply c d a s ≡ ok u
      → (t : VotingState) × (j k : TokenState) × (vote c a s.voting ≡ ok t)
        × (direct d a s.tokens ≡ ok j)
        × (pay d (memo_of a) t.sent j ≡ ok k)
        × (settled t k ≡ u)
  unfolding apply
  apply_inv c d a s u h = elim (Result-cases (vote c a s.voting)) [
    | inr (m, bad) ↦ ground (arith, bad)
    | inl (t, e) ↦ elim (Result-cases (direct d a s.tokens)) [
      | inr (m, bad) ↦ ground (arith, e, bad)
      | inl (j, f) ↦ elim (Result-cases (pay d (memo_of a) t.sent j)) [
        | inr (m, bad) ↦ ground (arith, e, f, bad)
        | inl (k, g) ↦ (t, j, k, e, f, g, ground (arith, e, f, g))
      ]
    ]
  ]

  -- After any history of stakes, of votes taken back, of refunds, of votes for producers and of
  -- actions of the token contract, the sum that is kept of the stakes is the sum of the voters'
  -- stakes, and the account of the votes has at least all stakes and all refunds that can be
  -- claimed, in the core currency, if this held before, the tables were in order, and no direct
  -- action of the token contract has the authority of that account.
  pub run-Backed :
      (code : ℕ) (history : List (Context × Context × Action)) (s : Staking)
      → All Foreign history
      → BackedStakes code s
      → BackedStakes code (run history s)
  unfolding run
  run-Backed code [] s f v = v
  run-Backed code ((c, d, a) ∷ rest) s f v = elim (Result-cases (apply c d a s)) [
    | inl (u, e) ↦
        let (t, j, k, voted, moved, paid, same) = apply_inv c d a s u e in
        let next = apply-Backed code c d a s t j k f.0 v voted moved paid in
        rw (e, run) (run-Backed code rest u f.1 (subst (BackedStakes code) same next))
    | inr (x, e) ↦ rw (e, run) (run-Backed code rest s f.1 v)
  ]
