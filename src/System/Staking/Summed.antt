-- ===== src/System/Staking/Summed.antt =====
-- About contracts/flon.system/src/voting.cpp: the sum that is kept of the stakes.
use flon_contracts.Base.{
  ℕ, ◌≡◌, refl, sym, ap, ◌∙◌, [], pos, ℤ, ◌+ℤ◌, ◌≤ℤ◌, insert, sum_by, sum_by-insert, le-sum_by,
  AllRows, AllRows-insert, AllRows-lookup_or, int_laws, arith,
}
use flon_contracts.Chain.{InRange}
use flon_contracts.System.Voting.{VotingState, VoterInfo}
use flon_contracts.System.Voting.Elected.{blank_voter}
use flon_contracts.System.Staking.Effects.{staked, before, Moved}

abbrev pub Positive : VoterInfo → Type 0
Positive v = pos 0 ≤ℤ staked v

-- The sum that is kept of the stakes is that of the voters' stakes, none of which is negative.
pub record Summed (code : ℕ) (s : VotingState) : Type 0 where
  pub in_code : s.total_vote_stake.symbol.code ≡ code
  pub total : s.total_vote_stake.amount ≡ sum_by staked s.voters
  pub positive : AllRows Positive s.voters

changed : (a b x y : ℤ) → a +ℤ b ≡ x +ℤ (b +ℤ y) → a ≡ x +ℤ y
changed a b x y e = grind (int_laws, e)

pub before-Positive : (code voter : ℕ) (s : VotingState) → Summed code s → Positive (before voter s)
before-Positive code voter s v =
    AllRows-lookup_or Positive (blank_voter voter) voter s.voters (omega arith) v.positive

-- A change of one stake changes the sum alike.
pub Moved-Summed :
    (code voter : ℕ) (x : ℤ) (s t : VotingState)
    → Moved voter x s t
    → InRange t.total_vote_stake.amount
    → Summed code s
    → Summed code t
Moved-Summed code voter x s t m r v =
    let z = blank_voter voter in
    let was = before-Positive code voter s v in
    let now = m.covered was in
    let part : (before voter s).votes ≤ℤ s.total_vote_stake.amount =
      rw v.total (le-sum_by staked z voter s.voters refl v.positive) in
    let word = m.votes r now part in
    let sum = sum_by-insert staked z voter m.row s.voters refl in
    record {
      in_code = m.code ∙ v.in_code;
      total =
          m.total
          ∙ ap (λ y. y +ℤ x) v.total
          ∙ sym (
              rw m.voters (
                changed (sum_by staked (insert voter m.row s.voters)) (before voter s).votes
                  (sum_by staked s.voters) x (sum ∙ ap (λ y. sum_by staked s.voters +ℤ y) word)));
      positive =
          rw m.voters (AllRows-insert Positive voter m.row s.voters (rw word now) v.positive);
    }

pub emptied : (code : ℕ) (t : VotingState) → Summed code t → Summed code (record t { sent = [] })
emptied code t v = record { in_code = v.in_code; total = v.total; positive = v.positive }

pub unchanged : (a b x y : ℤ) → y ≡ b → a +ℤ b ≡ x +ℤ y → a ≡ x
unchanged a b x y e f = grind (int_laws, e, f)
