-- ===== src/Reward/Custody.antt =====
-- About the loop of `allocate_producer_rewards` in contracts/flon.reward/src/flon.reward.cpp: rewards
-- are still to be allocated by a producer, or a voter's to claim, or paid out.
use flon_contracts.Base.{
  ℕ, ◌≡◌, refl, ap, ◌∙◌, Bool, true, List, [], ◌∷◌, ◌++◌, ℤ, pos, ◌+ℤ◌, ◌-ℤ◌, i64, ok, Result-cases,
  inl, inr, if◌then◌else◌, int_laws, arith, Dict, insert, sum_by, sum_by-insert,
}
use flon_contracts.Chain.{Symbol, Asset, AssetOps, Context}
use flon_contracts.Reward.Defs.{
  Producer, Voter, VotedProducerMap, RewardState, TransferOut, new_producer, new_voter, row_or_new,
  core_symbol, settle, allocate_producer_rewards, regproducer, change_vote,
}
use flon_contracts.Reward.Settle.{settle_inv}

abbrev pub allocating : Producer → ℤ
allocating p = p.allocating_rewards.amount

abbrev pub unclaimed : Voter → ℤ
unclaimed v = v.unclaimed_rewards.amount

abbrev pub paid : List TransferOut → ℤ
paid [] = pos 0
paid (t ∷ ts) = t.quantity.amount +ℤ paid ts

abbrev pub Custody : RewardState → Type 0
Custody s =
    sum_by allocating s.producers +ℤ sum_by unclaimed s.voters +ℤ paid s.sent
    ≡ s.total_rewards.amount

pub paid-append :
    (ts : List TransferOut) (t : TransferOut) → paid (ts ++ t ∷ []) ≡ paid ts +ℤ t.quantity.amount
paid-append [] t = omega int_laws
paid-append (x ∷ ts) t = rw (paid-append ts t) (omega int_laws)

-- The arithmetic of one step: a row is replaced, and what it loses goes out.
step_conserved :
    (before after old new out mid out' final : ℤ)
    → mid +ℤ old ≡ before +ℤ new
    → new +ℤ out' ≡ old +ℤ out
    → after +ℤ final ≡ mid +ℤ out'
    → after +ℤ final ≡ before +ℤ out
step_conserved before after old new out mid out' final e f g = grind (int_laws, e, f, g)

-- Producers and one voter change, and together they hold what they held.
pub voter_update-Custody :
    (s : RewardState) (voter : ℕ) (z v : Voter) (table : Dict Producer)
    → unclaimed z ≡ pos 0
    → sum_by allocating table +ℤ unclaimed v
      ≡ sum_by allocating s.producers +ℤ unclaimed (row_or_new voter z s.voters)
    → Custody s
    → Custody (record s { voters = insert voter v s.voters; producers = table })
voter_update-Custody s voter z v table zero same h =
    balanced (sum_by allocating table) (sum_by allocating s.producers) (unclaimed v)
      (unclaimed (row_or_new voter z s.voters)) (sum_by unclaimed (insert voter v s.voters))
      (sum_by unclaimed s.voters) (paid s.sent) same
      (sum_by-insert unclaimed z voter v s.voters zero)
    ∙ h
  where
    balanced :
        (t t0 u u0 w w0 x : ℤ) → t +ℤ u ≡ t0 +ℤ u0 → w +ℤ u0 ≡ w0 +ℤ u → t +ℤ w +ℤ x ≡ t0 +ℤ w0 +ℤ x
    balanced t t0 u u0 w w0 x e f = grind (int_laws, e, f)

-- A change of producer rows that leaves their allocating rewards.
pub producer_update-Custody :
    (s : RewardState) (k : ℕ) (z p : Producer)
    → allocating z ≡ pos 0
    → allocating p ≡ allocating (row_or_new k z s.producers)
    → Custody s
    → Custody (record s { producers = insert k p s.producers })
producer_update-Custody s k z p zero same h =
    kept (sum_by allocating (insert k p s.producers)) (sum_by allocating s.producers) (allocating p)
      _ (sum_by unclaimed s.voters) (paid s.sent) same
      (sum_by-insert allocating z k p s.producers zero)
    ∙ h
  where
    kept : (t t0 a a0 w x : ℤ) → a ≡ a0 → t +ℤ a0 ≡ t0 +ℤ a → t +ℤ w +ℤ x ≡ t0 +ℤ w +ℤ x
    kept t t0 a a0 w x e f = grind (int_laws, e, f)

module _ ⦃ops : AssetOps⦄ where
  -- One round of the loop that goes through, and the rounds after it.
  pub allocate_inv :
      (now : ℕ) (y : Symbol) (k : ℕ) (last : ℤ) (rest m' : VotedProducerMap) (votes_old delta : ℤ)
      (table table' : Dict Producer) (out out' : Asset)
      → allocate_producer_rewards now y ((k, last) ∷ rest) votes_old delta table out
        ≡ ok (m', table', out')
      → (p : Producer) × (last' : ℤ) × (o : Asset) × (rest' : VotedProducerMap) × (settle now y
            votes_old delta last
            (row_or_new k (new_producer k y) table)
            out
          ≡ ok (p, last', o))
        × (allocate_producer_rewards now y rest votes_old delta (insert k p table) o
            ≡ ok (rest', table', out'))
        × (m' ≡ (k, last') ∷ rest')
  unfolding allocate_producer_rewards
  allocate_inv now y k last rest m' votes_old delta table table' out out' h =
      elim (Result-cases
        (settle now y votes_old delta last (row_or_new k (new_producer k y) table) out)) [
          | inr (e, bad) ↦ ground arith
          | inl ((p, last', o), good) ↦
              elim (Result-cases
                (allocate_producer_rewards now y rest votes_old delta (insert k p table) o)) [
                  | inr (e, bad) ↦ ground arith
                  | inl ((rest', t, o'), more) ↦
                      (p, last', o, rest', good, ground arith, ground arith)
                ]
        ]

  -- When the loop succeeds, the rewards that all producers still have to allocate and the unclaimed
  -- rewards of the voter have the same sum as before.
  pub allocate_conserved :
      (now : ℕ) (y : Symbol) (m m' : VotedProducerMap) (votes_old delta : ℤ)
      (table table' : Dict Producer) (out out' : Asset)
      → allocate_producer_rewards now y m votes_old delta table out ≡ ok (m', table', out')
      → sum_by allocating table' +ℤ out'.amount ≡ sum_by allocating table +ℤ out.amount
  unfolding allocate_producer_rewards
  allocate_conserved now y [] m' votes_old delta table table' out out' h = ground arith
  allocate_conserved now y ((k, last) ∷ rest) m' votes_old delta table table' out out' h =
      let old = row_or_new k (new_producer k y) table in
      let (p, last', o, rest', good, more, _) =
        allocate_inv now y k last rest m' votes_old delta table table' out out' h in
      let (q, served, _, _, _, written) =
        settle_inv now y votes_old delta last old p out last' o good in
      let same : allocating p ≡ allocating q = ap allocating written in
      step_conserved (sum_by allocating table) _ (allocating old) (allocating p) out.amount
        (sum_by allocating (insert k p table)) o.amount out'.amount
        (sum_by-insert allocating (new_producer k y) k p table refl) (rw same served.conserved)
        (allocate_conserved now y rest rest' votes_old delta (insert k p table) table' o out' more)

  pub change_vote-Custody :
      (c : Context) (voter : ℕ) (votes : ℤ) (is_adding : Bool) (s t : RewardState)
      → Custody s
      → change_vote c voter votes is_adding s ≡ ok t
      → Custody t × (t.total_rewards ≡ s.total_rewards)
  unfolding change_vote
  change_vote-Custody c voter votes is_adding s t h e =
      elim (Result-cases (
        allocate_producer_rewards c.now_slot (core_symbol s) v.producers v.votes delta s.producers
          v.unclaimed_rewards)) [
            | inr (m, bad) ↦ ground arith
            | inl ((m, table, u), good) ↦
                let done : t ≡ record s {
                  voters =
                      insert voter
                        (record v {
                          votes = i64 (v.votes +ℤ delta);
                          producers = m;
                          unclaimed_rewards = u;
                          update_at = c.now_slot;
                        })
                        s.voters;
                  producers = table;
                } =
                  ground arith in
                rw done (
                  voter_update-Custody s voter z _ table refl
                      (allocate_conserved c.now_slot (core_symbol s) v.producers m v.votes delta
                        s.producers table v.unclaimed_rewards u good)
                      h,
                  refl,
                )
          ]
    where
      z : Voter
      z = new_voter voter s.fresh_votes (core_symbol s)

      v : Voter
      v = row_or_new voter z s.voters

      delta : ℤ
      delta = if is_adding then votes else i64 (pos 0 -ℤ votes)

  pub regproducer-Custody :
      (c : Context) (producer : ℕ) (s t : RewardState)
      → Custody s
      → regproducer c producer s ≡ ok t
      → Custody t × (t.total_rewards ≡ s.total_rewards)
  unfolding regproducer
  regproducer-Custody c producer s t h e =
      let z = new_producer producer (core_symbol s) in
      let p = row_or_new producer z s.producers in
      let done : t ≡ record s {
        producers =
            insert producer (record p { is_registered = true; update_at = c.now_slot }) s.producers;
      } =
        ground arith in
      rw done (producer_update-Custody s producer z _ refl refl h, refl)
