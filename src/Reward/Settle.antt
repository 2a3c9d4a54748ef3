-- ===== src/Reward/Settle.antt =====
-- About one settlement of a voter with a producer in contracts/flon.reward/src/flon.reward.cpp.
use flon_contracts.Base.{
  ℕ, ◌≡◌, refl, ◌&&◌, ℤ, pos, ◌+ℤ◌, ◌-ℤ◌, ◌≤ℤ◌, ltb_ℤ, i64, i128, ok, Result-cases, Bool-cases, inl,
  inr, int_laws, arith,
}
use flon_contracts.Chain.{Symbol, Asset, AssetOps}
use flon_contracts.Reward.Defs.{Producer, serve, settle, calc_voter_rewards}

-- What serving a voter does that goes through: the same amount leaves the producer's allocating
-- rewards and reaches the voter.
pub record Served (p : Producer) (out : Asset) (p' : Producer) (out' : Asset) : Type 0 where
  pub accumulator_same : p'.rewards_per_vote ≡ p.rewards_per_vote
  pub votes_same : p'.votes ≡ p.votes
  pub total_same : p'.total_rewards ≡ p.total_rewards
  pub registered_same : p'.is_registered ≡ p.is_registered
  pub conserved :
      p'.allocating_rewards.amount +ℤ out'.amount ≡ p.allocating_rewards.amount +ℤ out.amount
  pub allocated :
      p'.allocating_rewards.amount +ℤ p'.allocated_rewards.amount
      ≡ p.allocating_rewards.amount +ℤ p.allocated_rewards.amount

shifted : (a b x a' b' : ℤ) → a' ≡ a -ℤ x → b' ≡ b +ℤ x → a' +ℤ b' ≡ a +ℤ b
shifted a b x a' b' e f = rw (e, f) (omega int_laws)

module _ ⦃ops : AssetOps⦄ where
  serve-Served :
      (y : Symbol) (votes_old delta : ℤ) (p p' : Producer) (out out' : Asset)
      → serve y votes_old delta p out ≡ ok (p', out')
      → Served p out p' out'
  unfolding serve
  serve-Served y votes_old delta p p' out out' h =
      elim (Bool-cases (ltb_ℤ (pos 0) delta && ltb_ℤ (pos 0) votes_old)) [
        | inr idle ↦ same_rows (ground arith) (ground arith)
        | inl busy ↦ elim (Result-cases (calc_voter_rewards votes_old delta y)) [
          | inr (m, e) ↦ ground arith
          | inl (x, ex) ↦ elim (Result-cases (ops.sub p.allocating_rewards x)) [
            | inr (m, e) ↦ ground arith
            | inl (a, ea) ↦ elim (Result-cases (ops.add p.allocated_rewards x)) [
              | inr (m, e) ↦ ground arith
              | inl (b, eb) ↦ elim (Result-cases (ops.add a b)) [
                | inr (m, e) ↦ ground arith
                | inl (t, et) ↦ elim (Result-cases (ops.add out x)) [
                  | inr (m, e) ↦ ground arith
                  | inl (o, eo) ↦
                      moved_rows x a b o (ops.sub_sound _ x a ea).0 (ops.add_sound _ x b eb).0
                        (ops.add_sound _ x o eo).0 (ground arith) (ground arith)
                ]
              ]
            ]
          ]
        ]
      ]
    where
      same_rows : p' ≡ p → out' ≡ out → Served p out p' out'
      same_rows ep eo =
          rw (ep, eo)
            (record {
              accumulator_same = refl;
              votes_same = refl;
              total_same = refl;
              registered_same = refl;
              conserved = refl;
              allocated = refl;
            })

      moved_rows :
          (x a b o : Asset)
          → a.amount ≡ p.allocating_rewards.amount -ℤ x.amount
          → b.amount ≡ p.allocated_rewards.amount +ℤ x.amount
          → o.amount ≡ out.amount +ℤ x.amount
          → p' ≡ record p { allocating_rewards = a; allocated_rewards = b }
          → out' ≡ o
          → Served p out p' out'
      moved_rows x a b o ea eb eo ep eout =
          rw (ep, eout)
            (record {
              accumulator_same = refl;
              votes_same = refl;
              total_same = refl;
              registered_same = refl;
              conserved = shifted _ _ x.amount _ _ ea eo;
              allocated = shifted _ _ x.amount _ _ ea eb;
            })

  -- A settlement that goes through serves the voter up to the producer's accumulator, and changes
  -- the producer's votes, by an amount that leaves them not negative.
  pub settle_inv :
      (now : ℕ) (y : Symbol) (votes_old votes_delta last : ℤ) (p p' : Producer) (out : Asset)
      (last' : ℤ) (out' : Asset)
      → settle now y votes_old votes_delta last p out ≡ ok (p', last', out')
      → (q : Producer) × Served p out q out'
        × (last ≤ℤ p.rewards_per_vote)
        × (last' ≡ p.rewards_per_vote)
        × (pos 0 ≤ℤ i64 (p.votes +ℤ votes_delta))
        × (p' ≡ record q { votes = i64 (p.votes +ℤ votes_delta); update_at = now })
  unfolding settle
  settle_inv now y votes_old votes_delta last p p' out last' out' h =
      elim (Result-cases (serve y votes_old (i128 (p.rewards_per_vote -ℤ last)) p out)) [
        | inr (m, e) ↦ ground arith
        | inl ((q, o), e) ↦
            let s = serve-Served y votes_old _ p q out o e in
            (
              q,
              ground (arith, s),
              ground arith,
              ground (arith, s.accumulator_same),
              ground (arith, s.votes_same),
              ground (arith, s.votes_same),
            )
      ]
