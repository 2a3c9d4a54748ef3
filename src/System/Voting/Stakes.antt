-- ===== src/System/Voting/Stakes.antt =====
-- About `addvote`, `subvote` and `voterefund` of contracts/flon.system/src/voting.cpp.
use flon_contracts.Base.{
  ◌++◌, lookup-erase, lookup-insert, ℕ, ◌*◌, ◌+◌, ◌≤◌, ◌≡◌, ◌≢◌, refl, sym, subst, [], ◌∷◌, none,
  some, Option-cases, Result-cases, inl, inr, ℤ, pos, ◌+ℤ◌, ◌-ℤ◌, i64, arith, int_laws, ok, lookup,
  insert, lookup_or,
}
use flon_contracts.Chain.{Asset, AssetOps, Context}
use flon_contracts.System.Voting.{
  VotingState, VoterInfo, update_producer_votes, addvote, subvote, voterefund, VoteRefund, Inline,
  vote_account, refund_delay_sec,
}
use flon_contracts.System.Voting.Words.{◌≈◌, i64-≈, of_≡, tally}
use flon_contracts.System.Voting.Elected.{
  Elected, weight, votes_of, update_votes_of, voter_update, blank_voter, restaked,
}
use flon_contracts.System.Voting.Voters.{blank_weight, known}

-- The voter `v` stakes `x` more on the producers of its list.
Restaked : ℕ → VoterInfo → ℤ → VotingState → VotingState → Type 0
Restaked voter v x s s' =
    (d : ℤ) × (d ≈ x)
    × (update_producer_votes v.producers d s.producers ≡ ok s'.producers)
    × (later : ℕ) × (s'.voters
        ≡ insert voter (record v { votes = i64 (v.votes +ℤ x); last_unvoted_time = later })
            s.voters)

Restaked-Elected :
    (voter : ℕ) (v : VoterInfo) (x : ℤ) (s s' : VotingState)
    → lookup_or (blank_voter voter) voter s.voters ≡ v
    → Restaked voter v x s s'
    → Elected s
    → Elected s'
unfolding Restaked
Restaked-Elected voter v x s s' prior (d, near, e, later, e') inv k =
    let v' : VoterInfo = record v { votes = i64 (v.votes +ℤ x); last_unvoted_time = later } in
    let delta : ℕ → ℤ = λ k. tally k d v.producers in
    let moved : (k : ℕ) → votes_of k s'.producers ≈ votes_of k s.producers +ℤ delta k =
      λ k. update_votes_of k v.producers d s.producers s'.producers e in
    let reweighed : (k : ℕ)
        → weight k v' ≈ weight k (lookup_or (blank_voter voter) voter s.voters) +ℤ delta k =
      λ k.
        subst (λ y. weight k v' ≈ weight k y +ℤ delta k) (sym prior)
          (restaked k v.producers v.votes (i64 (v.votes +ℤ x)) x d refl near) in
    rw e' (
      voter_update s voter (blank_voter voter) v' s'.producers delta (blank_weight voter) inv moved
        reweighed k)

module _ ⦃ops : AssetOps⦄ where
  pub addvote_known :
      (c : Context) (voter : ℕ) (vote_staked : Asset) (s s' : VotingState) (v : VoterInfo)
      → lookup voter s.voters ≡ some v
      → addvote c voter vote_staked s ≡ ok s'
      → (update_producer_votes v.producers vote_staked.amount s.producers ≡ ok s'.producers)
        × (s'.voters
            ≡ insert voter (record v { votes = i64 (v.votes +ℤ vote_staked.amount) }) s.voters)
  unfolding addvote
  addvote_known c voter vote_staked s s' v e h =
      elim (Result-cases (ops.add s.total_vote_stake vote_staked)) [
        | inl (stake, e0) ↦
            elim (Result-cases (update_producer_votes v.producers vote_staked.amount s.producers)) [
              | inl (table, e1) ↦ ground arith
              | inr (m, e1) ↦ ground arith
            ]
        | inr (m, e0) ↦ ground arith
      ]

  pub addvote_new :
      (c : Context) (voter : ℕ) (vote_staked : Asset) (s s' : VotingState)
      → lookup voter s.voters ≡ none
      → addvote c voter vote_staked s ≡ ok s'
      → (s'.producers ≡ s.producers)
        × (s'.voters
            ≡ insert voter (record (blank_voter voter) { votes = vote_staked.amount }) s.voters)
  unfolding addvote
  addvote_new c voter vote_staked s s' e h = ground arith

  pub subvote_known :
      (c : Context) (voter : ℕ) (vote_staked : Asset) (s s' : VotingState) (v : VoterInfo)
      → lookup voter s.voters ≡ some v
      → subvote c voter vote_staked s ≡ ok s'
      → (update_producer_votes v.producers (i64 (pos 0 -ℤ vote_staked.amount)) s.producers
          ≡ ok s'.producers)
        × (s'.voters
            ≡ insert voter
                (record v {
                  votes = i64 (v.votes -ℤ vote_staked.amount);
                  last_unvoted_time = c.now_slot;
                })
                s.voters)
  unfolding subvote
  subvote_known c voter vote_staked s s' v e h =
      elim (Result-cases (ops.sub s.total_vote_stake vote_staked)) [
        | inl (stake, e0) ↦
            elim (Result-cases
              (update_producer_votes v.producers (i64 (pos 0 -ℤ vote_staked.amount)) s.producers)) [
                | inl (table, e1) ↦ ground arith
                | inr (m, e1) ↦ ground arith
              ]
        | inr (m, e0) ↦ ground arith
      ]

  pub subvote_unknown :
      (c : Context) (voter : ℕ) (vote_staked : Asset) (s s' : VotingState)
      → subvote c voter vote_staked s ≡ ok s'
      → lookup voter s.voters ≢ none
  unfolding subvote
  subvote_unknown c voter vote_staked s s' h e = ground arith

  -- When `addvote` succeeds and the votes of every producer were the sum of the votes of the voters
  -- who list it (as `int64_t` words), they are so afterwards.
  pub addvote-Elected :
      (c : Context) (voter : ℕ) (vote_staked : Asset) (s s' : VotingState)
      → addvote c voter vote_staked s ≡ ok s'
      → Elected s
      → Elected s'
  unfolding Restaked
  addvote-Elected c voter vote_staked s s' h inv = elim (Option-cases (lookup voter s.voters)) [
    | inl e ↦
        let (e1, e2) = addvote_new c voter vote_staked s s' e h in
        let v = record (blank_voter voter) { votes = vote_staked.amount } in
        let prior : lookup_or (blank_voter voter) voter s.voters ≡ blank_voter voter =
          ground arith in
        rw (e1, e2)
          (voter_update s voter (blank_voter voter) v s.producers (λ _. pos 0) (blank_weight voter)
            inv (λ k. of_≡ (plus_zero (votes_of k s.producers)))
            (λ k. rw prior (of_≡ (plus_zero (pos 0)))))
    | inr (v, e) ↦
        let (e1, e2) = addvote_known c voter vote_staked s s' v e h in
        Restaked-Elected voter v vote_staked.amount s s' (known voter s.voters v e)
          (vote_staked.amount, refl, e1, v.last_unvoted_time, e2) inv
  ]
    where
      plus_zero : (x : ℤ) → x ≡ x +ℤ pos 0
      plus_zero x = omega int_laws

  -- When `subvote` succeeds and the votes of every producer were the sum of the votes of the voters
  -- who list it (as `int64_t` words), they are so afterwards.
  pub subvote-Elected :
      (c : Context) (voter : ℕ) (vote_staked : Asset) (s s' : VotingState)
      → subvote c voter vote_staked s ≡ ok s'
      → Elected s
      → Elected s'
  unfolding Restaked
  subvote-Elected c voter vote_staked s s' h inv = elim (Option-cases (lookup voter s.voters)) [
    | inl e ↦ absurd (subvote_unknown c voter vote_staked s s' h e)
    | inr (v, e) ↦
        let (e1, e2) = subvote_known c voter vote_staked s s' v e h in
        Restaked-Elected voter v (pos 0 -ℤ vote_staked.amount) s s' (known voter s.voters v e)
          (
            i64 (pos 0 -ℤ vote_staked.amount),
            i64-≈ (pos 0 -ℤ vote_staked.amount),
            e1,
            c.now_slot,
            subst
                (λ (w : ℤ).
                  s'.voters
                  ≡ insert voter (record v { votes = i64 w; last_unvoted_time = c.now_slot })
                      s.voters)
                (plus_neg v.votes vote_staked.amount) e2,
          )
          inv
  ]
    where
      plus_neg : (x y : ℤ) → x -ℤ y ≡ x +ℤ (pos 0 -ℤ y)
      plus_neg x y = omega int_laws

  subvote_refund :
      (c : Context) (voter : ℕ) (vote_staked : Asset) (s s' : VotingState)
      → subvote c voter vote_staked s ≡ ok s'
      → lookup voter s'.refunds
        ≡ some (record { owner = voter; request_time = c.now_sec; vote_staked = vote_staked })
  unfolding subvote
  subvote_refund c voter vote_staked s s' h =
      let refund : VoteRefund = record {
        owner = voter;
        request_time = c.now_sec;
        vote_staked = vote_staked;
      } in
      ground (arith, lookup-insert voter voter refund s.refunds)

  -- A `voterefund` right after a successful `subvote` of the same voter succeeds three days after the
  -- second of the `subvote` at the earliest; it then sends the unstaked amount from the vote account to the voter, and
  -- removes the refund, so that the next `voterefund` of the voter fails.
  pub subvote-voterefund :
      (c later : Context) (voter : ℕ) (vote_staked : Asset) (s s' t : VotingState)
      → subvote c voter vote_staked s ≡ ok s'
      → voterefund later voter s' ≡ ok t
      → ((c.now_sec + refund_delay_sec) * 1000000 ≤ later.now)
        × (t.sent ≡ s'.sent ++ Inline.token_transfer vote_account voter vote_staked ∷ [])
        × ((d : Context) (u : VotingState) → voterefund d voter t ≢ ok u)
  unfolding voterefund
  subvote-voterefund c later voter vote_staked s s' t h e =
      let found = subvote_refund c voter vote_staked s s' h in
      (
        ground (arith, found),
        ground (arith, found),
        λ d u bad. ground (arith, found, lookup-erase voter voter s'.refunds),
      )
