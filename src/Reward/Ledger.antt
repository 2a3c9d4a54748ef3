-- ===== src/Reward/Ledger.antt =====
-- About claims, incoming rewards and votes in contracts/flon.reward/src/flon.reward.cpp: where the
-- rewards are.
use flon_contracts.Base.{
  ℕ, ◌≡◌, refl, ◌∙◌, Bool, not, ◌&&◌, some, List, [], ◌∷◌, ◌++◌, ℤ, pos, ◌+ℤ◌, ◌-ℤ◌, i64, ltb_ℤ,
  Result, ok, Result-cases, Option-cases, Bool-cases, inl, inr, ◌==◌, if◌then◌else◌, int_laws,
  arith, Dict, lookup, insert, sum_by, sum_by-insert,
}
use flon_contracts.Chain.{Symbol, symbol_eq, Asset, AssetOps, Context}
use flon_contracts.Reward.Defs.{
  Producer, Voter, VotedProducerMap, RewardState, new_producer, new_voter, row_or_new, core_symbol,
  core_token, calc_rewards_per_vote, allocate_producer_rewards, claim_rewards, ontransfer,
}
use flon_contracts.Reward.Voting.{voteproducer, merge, emplace_all, Merged}
use flon_contracts.Reward.Custody.{
  allocating, unclaimed, paid, Custody, paid-append, voter_update-Custody, allocate_conserved,
}

-- A claim: what the voter holds after the settlement leaves the contract.
claimed_out :
    (t t0 u u0 w w0 x x' total : ℤ)
    → t +ℤ u ≡ t0 +ℤ u0
    → w +ℤ u0 ≡ w0 +ℤ pos 0
    → x' ≡ x +ℤ u
    → t0 +ℤ w0 +ℤ x ≡ total
    → t +ℤ w +ℤ x' ≡ total
claimed_out t t0 u u0 w w0 x x' total e f g h = rw (g, ← h) (grind (int_laws, e, f))

-- An arrival: the total and one producer's allocating rewards grow alike.
arrived :
    (t t0 a a0 q w x total total' : ℤ)
    → t +ℤ a0 ≡ t0 +ℤ a
    → a ≡ a0 +ℤ q
    → total' ≡ total +ℤ q
    → t0 +ℤ w +ℤ x ≡ total
    → t +ℤ w +ℤ x ≡ total'
arrived t t0 a a0 q w x total total' e f g h = rw (g, ← h) (grind (int_laws, e, f))

module _ ⦃ops : AssetOps⦄ where
  -- The settlement before a claim, which is skipped without votes.
  abbrev settled : Context → RewardState → Voter → Result (VotedProducerMap × Dict Producer × Asset)
  settled c s v =
      if ltb_ℤ (pos 0) v.votes
      then allocate_producer_rewards c.now_slot (core_symbol s) v.producers v.votes (pos 0)
          s.producers v.unclaimed_rewards
      else ok (v.producers, s.producers, v.unclaimed_rewards)

  settled_conserved :
      (c : Context) (s : RewardState) (v : Voter) (m : VotedProducerMap) (table : Dict Producer)
      (u : Asset)
      → settled c s v ≡ ok (m, table, u)
      → sum_by allocating table +ℤ u.amount ≡ sum_by allocating s.producers +ℤ unclaimed v
  settled_conserved c s v m table u h = elim (Bool-cases (ltb_ℤ (pos 0) v.votes)) [
    | inl voting ↦
        allocate_conserved c.now_slot (core_symbol s) v.producers m v.votes (pos 0) s.producers
          table v.unclaimed_rewards u (rw voting at h)
    | inr idle ↦ ground arith
  ]

  pub claim_rewards-Custody :
      (c : Context) (voter : ℕ) (s t : RewardState)
      → Custody s
      → claim_rewards c voter s ≡ ok t
      → Custody t × (t.total_rewards ≡ s.total_rewards)
  unfolding claim_rewards
  claim_rewards-Custody c voter s t h e = elim (Option-cases (lookup voter s.voters)) [
    | inl missing ↦ ground arith
    | inr (v, found) ↦ elim (Result-cases (settled c s v)) [
      | inr (m, bad) ↦ ground arith
      | inl ((m, table, u), good) ↦ elim (Result-cases (ops.add v.claimed_rewards u)) [
        | inr (x, bad) ↦ ground arith
        | inl (claimed, added) ↦
            let v' : Voter = record v {
              producers = m;
              unclaimed_rewards = record u { amount = pos 0 };
              claimed_rewards = claimed;
              update_at = c.now_slot;
            } in
            let done : t ≡ record s {
              voters = insert voter v' s.voters;
              producers = table;
              sent = s.sent ++ record { to = voter; quantity = u } ∷ [];
            } =
              ground arith in
            let z = new_voter voter (pos 0) (core_symbol s) in
            let held : unclaimed (row_or_new voter z s.voters) ≡ unclaimed v =
              ground (arith, found) in
            rw done (
              claimed_out (sum_by allocating table) (sum_by allocating s.producers) u.amount
                  (unclaimed v) (sum_by unclaimed (insert voter v' s.voters))
                  (sum_by unclaimed s.voters) (paid s.sent) _ s.total_rewards.amount
                  (settled_conserved c s v m table u good)
                  (rw held at (sum_by-insert unclaimed z voter v' s.voters refl))
                  (paid-append s.sent (record { to = voter; quantity = u })) h,
              refl,
            )
      ]
    ]
  ]

  pub ontransfer-Custody :
      (c : Context) (first_receiver from to : ℕ) (q : Asset) (s t : RewardState)
      → Custody s
      → ontransfer c first_receiver from to q s ≡ ok t
      → Custody t × (core_symbol t ≡ core_symbol s)
  unfolding ontransfer
  ontransfer-Custody c first_receiver from to q s t h e = elim (Bool-cases ours) [
    | inr other ↦ let same : t ≡ s = ground arith in rw same (h, refl)
    | inl mine ↦ elim (Result-cases (ops.add s.total_rewards q)) [
      | inr (m, bad) ↦ ground arith
      | inl (total, et) ↦ elim (Option-cases (lookup from s.producers)) [
        | inl missing ↦ ground arith
        | inr (p, found) ↦ elim (Result-cases (ops.add p.total_rewards q)) [
          | inr (m, bad) ↦ ground arith
          | inl (mine', em) ↦ elim (Result-cases (ops.add p.allocating_rewards q)) [
            | inr (m, bad) ↦ ground arith
            | inl (a, ea) ↦
                elim (Result-cases (calc_rewards_per_vote p.rewards_per_vote q p.votes)) [
                  | inr (m, bad) ↦ ground arith
                  | inl (acc, eacc) ↦ received total p a mine' acc et ea found (ground arith)
                ]
          ]
        ]
      ]
    ]
  ]
    where
      ours : Bool
      ours =
          first_receiver == core_token
          && symbol_eq q.symbol (core_symbol s)
          && not (from == c.self)
          && to == c.self

      received :
          (total : Asset) (p : Producer) (a mine : Asset) (acc : ℤ)
          → ops.add s.total_rewards q ≡ ok total
          → ops.add p.allocating_rewards q ≡ ok a
          → lookup from s.producers ≡ some p
          → t ≡ record s {
            total_rewards = total;
            producers =
                insert from
                  (record p {
                    total_rewards = mine;
                    allocating_rewards = a;
                    rewards_per_vote = acc;
                    update_at = c.now_slot;
                  })
                  s.producers;
          }
          → Custody t × (core_symbol t ≡ core_symbol s)
      received total p a mine acc et ea found done =
          let z = new_producer from (core_symbol s) in
          let held : allocating (row_or_new from z s.producers) ≡ allocating p =
            ground (arith, found) in
          let p' : Producer = record p {
            total_rewards = mine;
            allocating_rewards = a;
            rewards_per_vote = acc;
            update_at = c.now_slot;
          } in
          rw done (
            arrived _ (sum_by allocating s.producers) a.amount (allocating p) q.amount
                (sum_by unclaimed s.voters) (paid s.sent) s.total_rewards.amount total.amount
                (rw held at (sum_by-insert allocating z from p' s.producers refl))
                (ops.add_sound p.allocating_rewards q a ea).0
                (ops.add_sound s.total_rewards q total et).0 h,
            (ops.add_sound s.total_rewards q total et).1,
          )

  pub voteproducer-Custody :
      (c : Context) (voter : ℕ) (producers : List ℕ) (s t : RewardState)
      → Custody s
      → voteproducer c voter producers s ≡ ok t
      → Custody t × (t.total_rewards ≡ s.total_rewards)
  unfolding voteproducer
  voteproducer-Custody c voter producers s t h e = elim (Result-cases first) [
    | inr (m, bad) ↦ ground arith
    | inl ((m1, t1, u1), e1) ↦ elim (Result-cases (second t1 u1)) [
      | inr (m, bad) ↦ ground arith
      | inl ((m2, t2, u2), e2) ↦ elim (Result-cases (third t2 u2)) [
        | inr (m, bad) ↦ ground arith
        | inl ((m3, t3, u3), e3) ↦
            let done : t ≡ record s {
              voters =
                  insert voter
                    (record v {
                      producers = emplace_all m3 m2;
                      unclaimed_rewards = u3;
                      update_at = c.now_slot;
                    })
                    s.voters;
              producers = t3;
            } =
              ground arith in
            rw done (
              voter_update-Custody s voter z _ t3 refl
                  (allocate_conserved c.now_slot y merged.added_prods m3 (pos 0) v.votes t2 t3 u2 u3
                      e3
                    ∙ allocate_conserved c.now_slot y merged.kept m2 v.votes (pos 0) t1 t2 u1 u2 e2
                    ∙ allocate_conserved c.now_slot y merged.removed_prods m1 v.votes _ s.producers
                        t1 v.unclaimed_rewards u1 e1)
                  h,
              refl,
            )
      ]
    ]
  ]
    where
      y : Symbol
      y = core_symbol s

      z : Voter
      z = new_voter voter s.fresh_votes y

      v : Voter
      v = row_or_new voter z s.voters

      merged : Merged
      merged =
          merge v.producers producers
            (record { kept = v.producers; removed_prods = []; added_prods = [] })

      first : Result (VotedProducerMap × Dict Producer × Asset)
      first =
          allocate_producer_rewards c.now_slot y merged.removed_prods v.votes
            (i64 (pos 0 -ℤ v.votes)) s.producers v.unclaimed_rewards

      second : Dict Producer → Asset → Result (VotedProducerMap × Dict Producer × Asset)
      second table u = allocate_producer_rewards c.now_slot y merged.kept v.votes (pos 0) table u

      third : Dict Producer → Asset → Result (VotedProducerMap × Dict Producer × Asset)
      third table u =
          allocate_producer_rewards c.now_slot y merged.added_prods (pos 0) v.votes table u
