-- ===== src/System/Voting/Elected.antt =====
-- About contracts/flon.system/src/voting.cpp: the votes of the producers, and the sums of the votes of
-- the voters who list them.
use flon_contracts.Base.{
  ℕ, ◌≡◌, sym, ap, ◌∙◌, List, [], ◌∷◌, none, some, Bool, true, false, ◌==◌, Option-cases, inl, inr,
  if◌then◌else◌, ℤ, pos, ◌+ℤ◌, ◌-ℤ◌, i64, arith, int_laws, ok, Dict, lookup, insert, lookup_or,
  lookup-insert, sum_by, sum_by-insert,
}
use flon_contracts.System.Voting.{VotingState, VoterInfo, ProducerInfo, update_producer_votes}
use flon_contracts.System.Voting.Words.{
  ◌≈◌, i64-≈, ≈-+, +-≈, of_≡, tally, tally-+, tally-≈, tally-zero,
}

abbrev pub votes_of : ℕ → Dict ProducerInfo → ℤ
votes_of k table = elim (lookup k table) [ none ↦ pos 0 | some p ↦ p.total_votes ]

abbrev pub weight : ℕ → VoterInfo → ℤ
weight k v = tally k v.votes v.producers

-- As `int64_t` words.
abbrev pub Elected : VotingState → Type 0
Elected s = (k : ℕ) → votes_of k s.producers ≈ sum_by (weight k) s.voters

pub votes_of-insert :
    (k j : ℕ) (p : ProducerInfo) (table : Dict ProducerInfo)
    → votes_of k (insert j p table) ≡ (if k == j then p.total_votes else votes_of k table)
votes_of-insert k j p table = ground (arith, lookup-insert j k p table)

update_inv :
    (j : ℕ) (ps : List ℕ) (d : ℤ) (table table' : Dict ProducerInfo)
    → update_producer_votes (j ∷ ps) d table ≡ ok table'
    → (p : ProducerInfo) × (lookup j table ≡ some p)
      × (update_producer_votes ps d
            (insert j (record p { total_votes = i64 (p.total_votes +ℤ d) }) table)
          ≡ ok table')
unfolding update_producer_votes
update_inv j ps d table table' h = elim (Option-cases (lookup j table)) [
  | inl e ↦ ground arith
  | inr (p, e) ↦ (p, e, ground arith)
]

round :
    (hit : Bool) (old new d rest total : ℤ)
    → new ≡ (if hit then i64 (old +ℤ d) else old)
    → total ≈ new +ℤ rest
    → total ≈ old +ℤ ((if hit then d else pos 0) +ℤ rest)
round true old new d rest total e h =
    h
    ∙ of_≡ (ap (λ (x : ℤ). x +ℤ rest) e)
    ∙ ≈-+ (i64 (old +ℤ d)) (old +ℤ d) rest (i64-≈ (old +ℤ d))
    ∙ of_≡ (right old d rest)
  where
    right : (x y z : ℤ) → x +ℤ y +ℤ z ≡ x +ℤ (y +ℤ z)
    right x y z = omega int_laws
round false old new d rest total e h = h ∙ of_≡ (ap (λ (x : ℤ). x +ℤ rest) e ∙ same old rest)
  where
    same : (x z : ℤ) → x +ℤ z ≡ x +ℤ (pos 0 +ℤ z)
    same x z = omega int_laws

-- The loop adds to each producer's votes once for each time that it is listed.
pub update_votes_of :
    (k : ℕ) (ps : List ℕ) (d : ℤ) (table table' : Dict ProducerInfo)
    → update_producer_votes ps d table ≡ ok table'
    → votes_of k table' ≈ votes_of k table +ℤ tally k d ps
unfolding update_producer_votes
update_votes_of k [] d table table' h =
    let same : table' ≡ table = ground arith in rw same (of_≡ (omega int_laws))
update_votes_of k (j ∷ ps) d table table' h =
    let (p, e, more) = update_inv j ps d table table' h in
    let row = record p { total_votes = i64 (p.total_votes +ℤ d) } in
    let written : votes_of k (insert j row table)
        ≡ (if k == j then i64 (votes_of k table +ℤ d) else votes_of k table) =
      ground (arith, votes_of-insert k j row table, e) in
    round (k == j) (votes_of k table) (votes_of k (insert j row table)) d (tally k d ps)
      (votes_of k table') written (update_votes_of k ps d (insert j row table) table' more)

-- A voter whose weight changes by what the producers' votes change by.
kept :
    (votes votes' sum sum' w w' d : ℤ)
    → votes ≈ sum
    → votes' ≈ votes +ℤ d
    → sum' +ℤ w ≡ sum +ℤ w'
    → w' ≈ w +ℤ d
    → votes' ≈ sum'
kept votes votes' sum sum' w w' d h e f g =
    let moved : sum' ≡ (sum -ℤ w) +ℤ w' = grind (int_laws, f) in
    e
    ∙ ≈-+ votes sum d h
    ∙ of_≡ (split sum w d)
    ∙ +-≈ (w +ℤ d) w' (sum -ℤ w) (sym g)
    ∙ of_≡ (sym moved)
  where
    split : (x y z : ℤ) → x +ℤ z ≡ (x -ℤ y) +ℤ (y +ℤ z)
    split x y z = omega int_laws

module _ (s : VotingState) (voter : ℕ) (z v : VoterInfo) (table : Dict ProducerInfo) (d : ℕ → ℤ)
    (blank : (k : ℕ) → weight k z ≡ pos 0) (h : Elected s)
    (moved : (k : ℕ) → votes_of k table ≈ votes_of k s.producers +ℤ d k)
    (reweighed : (k : ℕ) → weight k v ≈ weight k (lookup_or z voter s.voters) +ℤ d k) where
  pub voter_update : (k : ℕ) → votes_of k table ≈ sum_by (weight k) (insert voter v s.voters)
  voter_update k =
      kept (votes_of k s.producers) (votes_of k table) (sum_by (weight k) s.voters)
        (sum_by (weight k) (insert voter v s.voters)) (weight k (lookup_or z voter s.voters))
        (weight k v) (d k) (h k) (moved k) (sum_by-insert (weight k) z voter v s.voters (blank k))
        (reweighed k)

abbrev pub blank_voter : ℕ → VoterInfo
blank_voter owner = record { owner = owner; producers = []; votes = pos 0; last_unvoted_time = 0 }

-- A stake that changes by `x`, under the same producers.
pub restaked :
    (k : ℕ) (ps : List ℕ) (a b x d : ℤ)
    → b ≡ i64 (a +ℤ x)
    → d ≈ x
    → tally k b ps ≈ tally k a ps +ℤ tally k d ps
restaked k ps a b x d e f =
    tally-≈ k b (a +ℤ d) ps (of_≡ e ∙ i64-≈ (a +ℤ x) ∙ +-≈ x d a (sym f)) ∙ of_≡ (tally-+ k a d ps)

-- The same stake, moved from the old producers to the new ones.
pub moved_over :
    (k : ℕ) (olds news : List ℕ) (a : ℤ)
    → tally k a news
      ≈ tally k a olds +ℤ (tally k (i64 (pos 0 -ℤ a)) olds +ℤ tally k (pos 0) [] +ℤ tally k a news)
moved_over k olds news a =
    let gone : tally k (i64 (pos 0 -ℤ a)) olds +ℤ tally k a olds ≈ pos 0 =
      ≈-+ (tally k (i64 (pos 0 -ℤ a)) olds) (tally k (pos 0 -ℤ a) olds) (tally k a olds)
        (tally-≈ k (i64 (pos 0 -ℤ a)) (pos 0 -ℤ a) olds (i64-≈ (pos 0 -ℤ a)))
      ∙ of_≡ (
          sym (tally-+ k (pos 0 -ℤ a) a olds)
          ∙ ap (λ (x : ℤ). tally k x olds) (cancel a)
          ∙ tally-zero k olds) in
    of_≡ (zero_plus (tally k a news))
    ∙ ≈-+ (pos 0) (tally k (i64 (pos 0 -ℤ a)) olds +ℤ tally k a olds) (tally k a news) (sym gone)
    ∙ of_≡ (regroup (tally k (i64 (pos 0 -ℤ a)) olds) (tally k a olds) (tally k a news))
  where
    cancel : (x : ℤ) → pos 0 -ℤ x +ℤ x ≡ pos 0
    cancel x = omega int_laws

    zero_plus : (x : ℤ) → x ≡ pos 0 +ℤ x
    zero_plus x = omega int_laws

    regroup : (g x n : ℤ) → g +ℤ x +ℤ n ≡ x +ℤ (g +ℤ pos 0 +ℤ n)
    regroup g x n = omega int_laws
