-- ===== src/System/Staking/Returns.antt =====
-- About contracts/flon.system/src/voting.cpp: what
-- `subvote`, `voterefund` and `voteproducer` change in the stakes and the refunds.
use flon_contracts.Base.{
  ℕ, ◌≡◌, refl, List, [], ◌∷◌, ◌++◌, none, some, ℤ, pos, ◌+ℤ◌, ◌-ℤ◌, ◌≤ℤ◌, i64, ok, lookup, insert,
  erase, int_laws, arith, Option-cases, Result-cases, inl, inr, ap, ◌∙◌,
}
use flon_contracts.Chain.{Asset, AssetOps, InRange, Context}
use flon_contracts.System.Voting.{
  VotingState, VoterInfo, VoteRefund, Inline, vote_account, refund_delay_sec, update_producer_votes,
  classify, subvote, voterefund, voteproducer,
}
use flon_contracts.System.Voting.Stakes.{subvote_known, subvote_unknown}
use flon_contracts.System.Staking.Effects.{before, Moved, kept_word}

module _ ⦃ops : AssetOps⦄ where
  -- The other tables after `subvote`, and what it sends.
  pub record Removed (voter : ℕ) (q : Asset) (s t : VotingState) : Type 0 where
    pub moved : Moved voter (pos 0 -ℤ q.amount) s t
    pub in_range : InRange t.total_vote_stake.amount
    pub q_code : q.symbol.code ≡ s.total_vote_stake.symbol.code
    pub absent : lookup voter s.refunds ≡ none
    pub refund : VoteRefund
    pub refunded : refund.vote_staked ≡ q
    pub refunds : t.refunds ≡ insert voter refund s.refunds
    pub sent :
        t.sent
        ≡ (s.sent ++ Inline.reward_subvote voter q.amount ∷ [])
          ++ Inline.deferred_voterefund voter refund_delay_sec ∷ []

  subvote_others :
      (c : Context) (voter : ℕ) (q : Asset) (s t : VotingState) (v : VoterInfo)
      → lookup voter s.voters ≡ some v
      → subvote c voter q s ≡ ok t
      → (ops.sub s.total_vote_stake q ≡ ok t.total_vote_stake)
        × (q.symbol.code ≡ s.total_vote_stake.symbol.code)
        × (q.amount ≤ℤ v.votes)
        × (lookup voter s.refunds ≡ none)
        × (t.refunds
            ≡ insert voter
                (record { owner = voter; request_time = c.now_sec; vote_staked = q })
                s.refunds)
        × (t.sent
            ≡ (s.sent ++ Inline.reward_subvote voter q.amount ∷ [])
              ++ Inline.deferred_voterefund voter refund_delay_sec ∷ [])
  unfolding subvote
  subvote_others c voter q s t v e h = elim (Option-cases (lookup voter s.refunds)) [
    | inr (r, f) ↦ ground (arith, e, f)
    | inl f ↦ elim (Result-cases (ops.sub s.total_vote_stake q)) [
      | inr (m, e0) ↦ ground (arith, e, e0, f)
      | inl (stake, e0) ↦
          elim (Result-cases
            (update_producer_votes v.producers (i64 (pos 0 -ℤ q.amount)) s.producers)) [
              | inr (m, e1) ↦ ground (arith, e, e0, e1, f)
              | inl (table, e1) ↦ (
                ground (arith, e, e0, e1, f),
                ground (arith, e, e0, e1, f),
                ground (arith, e, e0, e1, f),
                f,
                ground (arith, e, e0, e1, f),
                ground (arith, e, e0, e1, f),
              )
            ]
    ]
  ]

  pub subvote-Removed :
      (c : Context) (voter : ℕ) (q : Asset) (s t : VotingState)
      → subvote c voter q s ≡ ok t
      → Removed voter q s t
  subvote-Removed c voter q s t h = elim (Option-cases (lookup voter s.voters)) [
    | inl e ↦ absurd (subvote_unknown c voter q s t h e)
    | inr (v, e) ↦
        let (stake, same, enough, absent, refunds, sent) = subvote_others c voter q s t v e h in
        let (total, symbol, range) = ops.sub_sound s.total_vote_stake q t.total_vote_stake stake in
        let (_, written) = subvote_known c voter q s t v e h in
        let there : before voter s ≡ v = ground arith in
        let row : VoterInfo = record v {
          votes = i64 (v.votes -ℤ q.amount);
          last_unvoted_time = c.now_slot;
        } in
        let sum = minus_total s.total_vote_stake.amount q.amount t.total_vote_stake.amount total in
        record {
          moved = record {
            row = row;
            voters = written;
            total = sum;
            code = ap (λ y. y.code) symbol;
            covered = λ p. rw there (left v.votes q.amount enough);
            votes = λ r p l. rw there (
                ap i64 (minus_plus v.votes q.amount)
                ∙ kept_word v.votes (pos 0 -ℤ q.amount) s.total_vote_stake.amount
                    t.total_vote_stake.amount r sum (rw there at l) (rw there at p));
          };
          in_range = range;
          q_code = same;
          absent = absent;
          refund = record { owner = voter; request_time = c.now_sec; vote_staked = q };
          refunded = refl;
          refunds = refunds;
          sent = sent;
        }
  ]
    where
      left : (v x : ℤ) → x ≤ℤ v → pos 0 ≤ℤ v +ℤ (pos 0 -ℤ x)
      left v x l = grind (int_laws, l)

      minus_plus : (v x : ℤ) → v -ℤ x ≡ v +ℤ (pos 0 -ℤ x)
      minus_plus v x = grind int_laws

      minus_total : (a x b : ℤ) → b ≡ a -ℤ x → b ≡ a +ℤ (pos 0 -ℤ x)
      minus_total a x b e = grind (int_laws, e)

-- What `voterefund` takes away, and what it sends.
pub record Repaid (owner : ℕ) (s t : VotingState) : Type 0 where
  pub row : VoteRefund
  pub found : lookup owner s.refunds ≡ some row
  pub refunds : t.refunds ≡ erase owner s.refunds
  pub voters : t.voters ≡ s.voters
  pub total : t.total_vote_stake ≡ s.total_vote_stake
  pub sent : t.sent ≡ s.sent ++ Inline.token_transfer vote_account row.owner row.vote_staked ∷ []

pub voterefund-Repaid :
    (c : Context) (owner : ℕ) (s t : VotingState) → voterefund c owner s ≡ ok t → Repaid owner s t
unfolding voterefund
voterefund-Repaid c owner s t h = elim (Option-cases (lookup owner s.refunds)) [
  | inl e ↦ ground arith
  | inr (r, e) ↦ record {
    row = r;
    found = e;
    refunds = ground (arith, e);
    voters = ground (arith, e);
    total = ground (arith, e);
    sent = ground (arith, e);
  }
]

-- `voteproducer` moves no stake.
pub record Revoted (voter : ℕ) (producers : List ℕ) (s t : VotingState) : Type 0 where
  pub row : VoterInfo
  pub votes : row.votes ≡ (before voter s).votes
  pub voters : t.voters ≡ insert voter row s.voters
  pub total : t.total_vote_stake ≡ s.total_vote_stake
  pub refunds : t.refunds ≡ s.refunds
  pub sent : t.sent ≡ s.sent ++ Inline.reward_voteproducer voter producers ∷ []

pub voteproducer-Revoted :
    (c : Context) (old new voter : ℕ) (producers : List ℕ) (s t : VotingState)
    → voteproducer c old new voter producers s ≡ ok t
    → Revoted voter producers s t
unfolding voteproducer
voteproducer-Revoted c old new voter producers s t h = elim (Option-cases (lookup voter s.voters)) [
  | inl e ↦ ground arith
  | inr (v, e) ↦
      let ch = classify old new v.producers producers in
      elim (Result-cases
        (update_producer_votes ch.removed_prods (i64 (pos 0 -ℤ v.votes)) s.producers)) [
          | inr (m, bad) ↦ absurd (ground (arith, e, bad))
          | inl (t1, e1) ↦
              elim (Result-cases (update_producer_votes ch.modified_prods (pos 0) t1)) [
                | inr (m, bad) ↦ absurd (ground (arith, e, e1, bad))
                | inl (t2, e2) ↦
                    elim (Result-cases (update_producer_votes ch.added_prods v.votes t2)) [
                      | inr (m, bad) ↦ absurd (ground (arith, e, e1, e2, bad))
                      | inl (t3, e3) ↦ record {
                        row = record v { producers = producers; last_unvoted_time = c.now_slot };
                        votes = let there : before voter s ≡ v = ground (arith, e) in rw there refl;
                        voters = ground arith;
                        total = ground arith;
                        refunds = ground arith;
                        sent = ground arith;
                      }
                    ]
              ]
        ]
]
