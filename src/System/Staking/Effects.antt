-- ===== src/System/Staking/Effects.antt =====
-- About contracts/flon.system/src/voting.cpp: the stakes, and what
-- `addvote` changes.
use flon_contracts.Base.{
  ℕ, ◌≡◌, [], ◌∷◌, ◌++◌, ℤ, pos, negsuc, ◌+ℤ◌, ◌≤ℤ◌, i64, wrap-Fits, ok, lookup, insert, lookup_or,
  int_laws, arith, Option-cases, Result-cases, inl, inr, ◌^◌, Result, if◌then◌else◌, subst, ap,
  Bool-cases, leb_ℤ, ◌&&◌,
}
use flon_contracts.Chain.{Asset, AssetOps, InRange, Context}
use flon_contracts.System.Voting.{
  VotingState, VoterInfo, Inline, vote_account, update_producer_votes, addvote,
}
use flon_contracts.System.Voting.Elected.{blank_voter}
use flon_contracts.System.Voting.Stakes.{addvote_known, addvote_new}

abbrev pub staked : VoterInfo → ℤ
staked v = v.votes

-- The row of the voter, or the one that a first stake is added to.
abbrev pub before : ℕ → VotingState → VoterInfo
before voter s = lookup_or (blank_voter voter) voter s.voters

-- The stake of the voter, and the sum that is kept of the stakes, change by `x`.
pub record Moved (voter : ℕ) (x : ℤ) (s t : VotingState) : Type 0 where
  pub row : VoterInfo
  pub voters : t.voters ≡ insert voter row s.voters
  pub total : t.total_vote_stake.amount ≡ s.total_vote_stake.amount +ℤ x
  pub code : t.total_vote_stake.symbol.code ≡ s.total_vote_stake.symbol.code
  pub covered : pos 0 ≤ℤ (before voter s).votes → pos 0 ≤ℤ (before voter s).votes +ℤ x
  pub votes :
      InRange t.total_vote_stake.amount
      → pos 0 ≤ℤ (before voter s).votes +ℤ x
      → (before voter s).votes ≤ℤ s.total_vote_stake.amount
      → row.votes ≡ (before voter s).votes +ℤ x

part_fits : (y b : ℤ) → InRange b → y ≤ℤ b → pos 0 ≤ℤ y → i64 y ≡ y
part_fits (pos n) b r l p = wrap-Fits (2 ^ 63) (pos n) (omega (arith, r.0, l), omega arith)
part_fits (negsuc n) b r l p = ground (arith, p)

part_grows : (v x a b : ℤ) → b ≡ a +ℤ x → v ≤ℤ a → v +ℤ x ≤ℤ b
part_grows v x a b e l = grind (int_laws, e, l)

-- A stake that is part of a total in range is kept as it is.
pub kept_word :
    (v x a b : ℤ) → InRange b → b ≡ a +ℤ x → v ≤ℤ a → pos 0 ≤ℤ v +ℤ x → i64 (v +ℤ x) ≡ v +ℤ x
kept_word v x a b r e l p = part_fits (v +ℤ x) b r (part_grows v x a b e l) p

module _ ⦃ops : AssetOps⦄ where
  -- The other tables after `addvote`, and what it sends.
  pub record Added (voter : ℕ) (q : Asset) (s t : VotingState) : Type 0 where
    pub moved : Moved voter q.amount s t
    pub in_range : InRange q.amount → InRange t.total_vote_stake.amount
    pub q_code : q.symbol.code ≡ s.total_vote_stake.symbol.code
    pub refunds : t.refunds ≡ s.refunds
    pub sent :
        t.sent
        ≡ (s.sent ++ Inline.token_transfer voter vote_account q ∷ [])
          ++ Inline.reward_addvote voter q.amount ∷ []

  -- The stake that `addvote` writes.
  abbrev new_stake : Asset → Asset → Result Asset
  new_stake total q =
      if leb_ℤ total.amount (pos 0) && leb_ℤ (pos 0) total.amount then ok q else ops.add total q

  new_stake_sum :
      (total q stake : Asset)
      → new_stake total q ≡ ok stake
      → q.symbol.code ≡ total.symbol.code
      → (stake.amount ≡ total.amount +ℤ q.amount)
        × (stake.symbol.code ≡ total.symbol.code)
        × (InRange q.amount → InRange stake.amount)
  new_stake_sum total q stake h same =
      elim (Bool-cases (leb_ℤ total.amount (pos 0) && leb_ℤ (pos 0) total.amount)) [
        | inl e ↦
            let whole : q ≡ stake = ground (arith, e) in
            let nothing : total.amount ≡ pos 0 = ground (arith, e) in
            subst
              (λ (x : Asset).
                (x.amount ≡ total.amount +ℤ q.amount)
                × (x.symbol.code ≡ total.symbol.code)
                × (InRange q.amount → InRange x.amount))
              whole (rw nothing (omega int_laws), same, λ r. r)
        | inr e ↦
            let (amount, symbol, range) = ops.add_sound total q stake (ground (arith, e)) in
            (amount, ap (λ y. y.code) symbol, λ _. range)
      ]

  addvote_others :
      (c : Context) (voter : ℕ) (q : Asset) (s t : VotingState)
      → addvote c voter q s ≡ ok t
      → (new_stake s.total_vote_stake q ≡ ok t.total_vote_stake)
        × (q.symbol.code ≡ s.total_vote_stake.symbol.code)
        × (pos 1 ≤ℤ q.amount)
        × (t.refunds ≡ s.refunds)
        × (t.sent
            ≡ (s.sent ++ Inline.token_transfer voter vote_account q ∷ [])
              ++ Inline.reward_addvote voter q.amount ∷ [])
  unfolding addvote
  addvote_others c voter q s t h = elim (Result-cases (new_stake s.total_vote_stake q)) [
    | inr (m, e0) ↦ ground (arith, e0)
    | inl (stake, e0) ↦ elim (Option-cases (lookup voter s.voters)) [
      | inl e ↦ (
        ground (arith, e0, e),
        ground (arith, e0, e),
        ground (arith, e0, e),
        ground (arith, e0, e),
        ground (arith, e0, e),
      )
      | inr (v, e) ↦ elim (Result-cases (update_producer_votes v.producers q.amount s.producers)) [
        | inr (m, e1) ↦ ground (arith, e0, e, e1)
        | inl (table, e1) ↦ (
          ground (arith, e0, e, e1),
          ground (arith, e0, e, e1),
          ground (arith, e0, e, e1),
          ground (arith, e0, e, e1),
          ground (arith, e0, e, e1),
        )
      ]
    ]
  ]

  pub addvote-Added :
      (c : Context) (voter : ℕ) (q : Asset) (s t : VotingState)
      → addvote c voter q s ≡ ok t
      → Added voter q s t
  addvote-Added c voter q s t h =
      let (stake, same, positive, refunds, sent) = addvote_others c voter q s t h in
      let (total, code, range) = new_stake_sum s.total_vote_stake q t.total_vote_stake stake same in
      let (row, voters, word) = new_row in
      record {
        moved = record {
          row = row;
          voters = voters;
          total = total;
          code = code;
          covered = λ p. grown (before voter s).votes q.amount p positive;
          votes = λ r p l. word (
              kept_word (before voter s).votes q.amount s.total_vote_stake.amount
                t.total_vote_stake.amount r total l p);
        };
        in_range = range;
        q_code = same;
        refunds = refunds;
        sent = sent;
      }
    where
      grown : (v x : ℤ) → pos 0 ≤ℤ v → pos 1 ≤ℤ x → pos 0 ≤ℤ v +ℤ x
      grown v x p l = omega (int_laws, p, l)

      from_zero : (x : ℤ) → x ≡ pos 0 +ℤ x
      from_zero x = omega int_laws

      new_row :
          (row : VoterInfo) × (t.voters ≡ insert voter row s.voters)
          × (i64 ((before voter s).votes +ℤ q.amount) ≡ (before voter s).votes +ℤ q.amount
              → row.votes ≡ (before voter s).votes +ℤ q.amount)
      new_row = elim (Option-cases (lookup voter s.voters)) [
        | inl e ↦
            let (_, written) = addvote_new c voter q s t e h in
            let blank : before voter s ≡ blank_voter voter = ground arith in
            (
              record (blank_voter voter) { votes = q.amount },
              written,
              λ w. rw blank (from_zero q.amount),
            )
        | inr (v, e) ↦
            let (_, written) = addvote_known c voter q s t v e h in
            let there : before voter s ≡ v = ground arith in
            (record v { votes = i64 (v.votes +ℤ q.amount) }, written, λ w. rw there (rw there at w))
      ]
