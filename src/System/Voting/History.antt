-- ===== src/System/Voting/History.antt =====
-- Histories of the actions of contracts/flon.system/src/voting.cpp, as a relation between states.
use flon_contracts.Base.{
  ℕ, ◌+◌, ◌*◌, ◌≤◌, ◌≡◌, ◌⊎◌, refl, List, Option, some, String, Bool, ok, Dict, lookup, arith,
}
use flon_contracts.Chain.{Asset, AssetOps, Context}
use flon_contracts.Reward.Defs.{Producer}
use flon_contracts.System.Voting.{
  Authority, VotingState, VoterInfo, length, voteproducer, addvote, subvote, voterefund,
}
use flon_contracts.System.Voting.Elected.{Elected}
use flon_contracts.System.Voting.Voters.{voteproducer-Elected}
use flon_contracts.System.Voting.Stakes.{addvote-Elected, subvote-Elected}
use flon_contracts.System.Voting.Registration.{
  regproducer, regproducer2, unregprod, rmvproducer, SameVotes, SameVotes-Elected,
  regproducer_votes, regproducer2_votes, unregprod_votes, rmvproducer_votes,
}

module _ ⦃ops : AssetOps⦄ where
  -- One action that succeeds. The two vectors that `voteproducer` compares are different objects, so
  -- they do not overlap in memory.
  pub data Step : VotingState → VotingState → Type 0 where
    stakes :
        {s t : VotingState} (c : Context) (voter : ℕ) (q : Asset)
        → addvote c voter q s ≡ ok t
        → Step s t
    unstakes :
        {s t : VotingState} (c : Context) (voter : ℕ) (q : Asset)
        → subvote c voter q s ≡ ok t
        → Step s t
    votes :
        {s t : VotingState} (c : Context) (old new voter : ℕ) (producers : List ℕ) (v : VoterInfo)
        → lookup voter s.voters ≡ some v
        → (old + 8 * length v.producers ≤ new) ⊎ (new + 8 * length producers ≤ old)
        → voteproducer c old new voter producers s ≡ ok t
        → Step s t
    refunds : {s t : VotingState} (c : Context) (owner : ℕ) → voterefund c owner s ≡ ok t → Step s t
    registers :
        {s t : VotingState} (c : Context) (rewarded : Dict Producer) (producer producer_key : ℕ)
        (url : String) (location : ℕ) (ratio : Option ℕ)
        → regproducer c rewarded producer producer_key url location ratio s ≡ ok t
        → Step s t
    registers_authority :
        {s t : VotingState} (is_valid : Authority → Bool) (c : Context) (rewarded : Dict Producer)
        (producer : ℕ) (authority : Authority) (url : String) (location : ℕ) (ratio : Option ℕ)
        → regproducer2 is_valid c rewarded producer authority url location ratio s ≡ ok t
        → Step s t
    unregisters : {s t : VotingState} (c : Context) (p : ℕ) → unregprod c p s ≡ ok t → Step s t
    removes : {s t : VotingState} (c : Context) (p : ℕ) → rmvproducer c p s ≡ ok t → Step s t

  pub data Steps : VotingState → VotingState → Type 0 where
    start : {s : VotingState} → Steps s s
    next : {s t u : VotingState} → Steps s t → Step t u → Steps s u

  voterefund_votes :
      (c : Context) (owner : ℕ) (s t : VotingState) → voterefund c owner s ≡ ok t → SameVotes s t
  unfolding voterefund
  voterefund_votes c owner s t h =
      let (e, f) : (t.producers ≡ s.producers) × (t.voters ≡ s.voters) = ground arith in
      rw e (λ k. refl, f)

  step-Elected : {s t : VotingState} → Step s t → Elected s → Elected t
  step-Elected (stakes {s} {t} c voter q h) inv = addvote-Elected c voter q s t h inv
  step-Elected (unstakes {s} {t} c voter q h) inv = subvote-Elected c voter q s t h inv
  step-Elected (votes {s} {t} c old new voter ps v found apart h) inv =
      voteproducer-Elected c old new voter ps s t v found apart h inv
  step-Elected (refunds {s} {t} c owner h) inv =
      SameVotes-Elected s t (voterefund_votes c owner s t h) inv
  step-Elected (registers {s} {t} c rewarded p key url location ratio h) inv =
      SameVotes-Elected s t (regproducer_votes c rewarded p key url location ratio s t h) inv
  step-Elected (registers_authority {s} {t} valid c rewarded p a url location ratio h) inv =
      SameVotes-Elected s t (regproducer2_votes valid c rewarded p a url location ratio s t h) inv
  step-Elected (unregisters {s} {t} c p h) inv =
      SameVotes-Elected s t (unregprod_votes c p s t h) inv
  step-Elected (removes {s} {t} c p h) inv = SameVotes-Elected s t (rmvproducer_votes c p s t h) inv

  -- Any history of successful voting actions, by anybody and in any order (registration, stakes,
  -- votes, refunds), keeps the votes of every producer equal to the sum of the votes of the voters
  -- who list it, as `int64_t` words.
  pub Steps-Elected : {s t : VotingState} → Steps s t → Elected s → Elected t
  Steps-Elected start inv = inv
  Steps-Elected (next before step) inv = step-Elected step (Steps-Elected before inv)
