-- ===== src/System/Voting/Voters.antt =====
-- About `voteproducer` of contracts/flon.system/src/voting.cpp: the votes of the producers.
use flon_contracts.Base.{
  ℕ, ◌+◌, ◌*◌, ◌≤◌, ◌≡◌, refl, sym, subst, ◌∙◌, List, [], ◌⊎◌, some, Result-cases, inl, inr, ℤ, pos,
  ◌+ℤ◌, ◌-ℤ◌, i64, arith, int_laws, ok, Dict, lookup, insert, lookup_or,
}
use flon_contracts.Chain.{Context}
use flon_contracts.System.Voting.{
  VotingState, VoterInfo, ProducerInfo, Changes, update_producer_votes, voteproducer, classify,
  length,
}
use flon_contracts.System.Voting.Merge.{classify_disjoint, all_changed}
use flon_contracts.System.Voting.Words.{◌≈◌, ≈-+, of_≡, tally}
use flon_contracts.System.Voting.Elected.{
  Elected, weight, votes_of, update_votes_of, voter_update, blank_voter, moved_over,
}

pub blank_weight : (owner k : ℕ) → weight k (blank_voter owner) ≡ pos 0
blank_weight owner k = refl

-- What a successful `voteproducer` does to the tables.
Revoted : Context → ℕ → List ℕ → VotingState → VotingState → VoterInfo → Changes → Type 0
Revoted c voter producers s s' v changes =
    (t1 : Dict ProducerInfo) × (t2 : Dict ProducerInfo) × (update_producer_votes
        changes.removed_prods (i64 (pos 0 -ℤ v.votes)) s.producers
      ≡ ok t1)
    × (update_producer_votes changes.modified_prods (pos 0) t1 ≡ ok t2)
    × (update_producer_votes changes.added_prods v.votes t2 ≡ ok s'.producers)
    × (s'.voters
        ≡ insert voter (record v { producers = producers; last_unvoted_time = c.now_slot })
            s.voters)

voteproducer_inv :
    (c : Context) (old new voter : ℕ) (producers : List ℕ) (s s' : VotingState) (v : VoterInfo)
    → lookup voter s.voters ≡ some v
    → voteproducer c old new voter producers s ≡ ok s'
    → Revoted c voter producers s s' v (classify old new v.producers producers)
unfolding voteproducer Revoted
voteproducer_inv c old new voter producers s s' v e h =
    let ch = classify old new v.producers producers in
    elim (Result-cases
      (update_producer_votes ch.removed_prods (i64 (pos 0 -ℤ v.votes)) s.producers)) [
        | inl (t1, e1) ↦ elim (Result-cases (update_producer_votes ch.modified_prods (pos 0) t1)) [
          | inl (t2, e2) ↦ elim (Result-cases (update_producer_votes ch.added_prods v.votes t2)) [
            | inl (t3, e3) ↦ (t1, t2, e1, e2, ground arith, ground arith)
            | inr _ ↦ ground arith
          ]
          | inr _ ↦ ground arith
        ]
        | inr _ ↦ ground arith
      ]

pub known :
    (voter : ℕ) (table : Dict VoterInfo) (v : VoterInfo)
    → lookup voter table ≡ some v
    → lookup_or (blank_voter voter) voter table ≡ v
known voter table v e = ground arith

chained : (a b c d x y z : ℤ) → b ≈ a +ℤ x → c ≈ b +ℤ y → d ≈ c +ℤ z → d ≈ a +ℤ (x +ℤ y +ℤ z)
chained a b c d x y z f g h =
    h
    ∙ ≈-+ c (b +ℤ y) z g
    ∙ ≈-+ (b +ℤ y) (a +ℤ x +ℤ y) z (≈-+ b (a +ℤ x) y f)
    ∙ of_≡ (regroup a x y z)
  where
    regroup : (a x y z : ℤ) → a +ℤ x +ℤ y +ℤ z ≡ a +ℤ (x +ℤ y +ℤ z)
    regroup a x y z = omega int_laws

Revoted-Elected :
    (c : Context) (voter : ℕ) (producers : List ℕ) (s s' : VotingState) (v : VoterInfo)
    → lookup voter s.voters ≡ some v
    → Revoted c voter producers s s' v (all_changed v.producers producers)
    → Elected s
    → Elected s'
unfolding Revoted
Revoted-Elected c voter producers s s' v e (t1, t2, e1, e2, e3, e4) inv k =
    let v' : VoterInfo = record v { producers = producers; last_unvoted_time = c.now_slot } in
    let olds = v.producers in
    let gone = i64 (pos 0 -ℤ v.votes) in
    let d : ℕ → ℤ = λ k. tally k gone olds +ℤ tally k (pos 0) [] +ℤ tally k v.votes producers in
    let moved : (k : ℕ) → votes_of k s'.producers ≈ votes_of k s.producers +ℤ d k = λ k.
      chained (votes_of k s.producers) (votes_of k t1) (votes_of k t2) (votes_of k s'.producers)
        (tally k gone olds) (tally k (pos 0) []) (tally k v.votes producers)
        (update_votes_of k olds gone s.producers t1 e1) (update_votes_of k [] (pos 0) t1 t2 e2)
        (update_votes_of k producers v.votes t2 s'.producers e3) in
    let prior : lookup_or (blank_voter voter) voter s.voters ≡ v = known voter s.voters v e in
    let reweighed : (k : ℕ)
        → weight k v' ≈ weight k (lookup_or (blank_voter voter) voter s.voters) +ℤ d k =
      λ k.
        subst (λ x. weight k v' ≈ weight k x +ℤ d k) (sym prior)
          (moved_over k olds producers v.votes) in
    rw e4 (
      voter_update s voter (blank_voter voter) v' s'.producers d (blank_weight voter) inv moved
        reweighed k)

-- When `voteproducer` succeeds for a known voter, with two vectors that do not overlap in memory, and
-- the votes of every producer were the sum of the votes of the voters who list it (as `int64_t`
-- words), they are so afterwards.
pub voteproducer-Elected :
    (c : Context) (old new voter : ℕ) (producers : List ℕ) (s s' : VotingState) (v : VoterInfo)
    → lookup voter s.voters ≡ some v
    → (old + 8 * length v.producers ≤ new) ⊎ (new + 8 * length producers ≤ old)
    → voteproducer c old new voter producers s ≡ ok s'
    → Elected s
    → Elected s'
unfolding Revoted
voteproducer-Elected c old new voter producers s s' v e apart h inv =
    let split = classify_disjoint old new v.producers producers apart in
    let done : Revoted c voter producers s s' v (all_changed v.producers producers) =
      subst (Revoted c voter producers s s' v) split
        (voteproducer_inv c old new voter producers s s' v e h) in
    Revoted-Elected c voter producers s s' v e done inv
