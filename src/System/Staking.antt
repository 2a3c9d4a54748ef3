-- ===== src/System/Staking.antt =====
-- Stakes and refunds of votes across the contracts: addvote, subvote, voterefund and voteproducer of
-- contracts/flon.system/src/voting.cpp, with the transfers that they send to contracts/flon.token.
pub mod Effects
pub mod Returns
pub mod Summed
pub mod Backed
pub mod History
mod Tests
use flon_contracts.Base.{ℕ, List, [], ◌∷◌, String, Result, ok, err, ◌>>=◌, ◌>>◌}
use flon_contracts.Chain.{Asset, AssetOps, Context}
use flon_contracts.Token.{TokenState, transfer}
use flon_contracts.Token.Actions
use flon_contracts.System.Voting.{VotingState, Inline, addvote, subvote, voterefund, voteproducer}

-- The tables of voting and those of the token contract. The actions that have been sent have been
-- done: `voting.sent` is what the current action sends.
pub record Staking : Type 0 where
  pub voting : VotingState
  pub tokens : TokenState

module _ ⦃ops : AssetOps⦄ where
  -- The token transfers among the actions sent; `d` is their context in the token contract. The
  -- others concern the reward contract, which could refuse them: the action then fails as a whole.
  unfoldable pub pay : Context → String → List Inline → TokenState → Result TokenState
  pay d memo [] s = ok s
  pay d memo (Inline.token_transfer from to q ∷ rest) s = do
    paid ← transfer d from to q memo s
    pay d memo rest paid
  pay d memo (Inline.reward_regproducer producer ∷ rest) s = pay d memo rest s
  pay d memo (Inline.reward_addvote voter votes ∷ rest) s = pay d memo rest s
  pay d memo (Inline.reward_subvote voter votes ∷ rest) s = pay d memo rest s
  pay d memo (Inline.reward_voteproducer voter producers ∷ rest) s = pay d memo rest s
  pay d memo (Inline.deferred_voterefund voter delay ∷ rest) s = pay d memo rest s

  abbrev pub settled : VotingState → TokenState → Staking
  settled v k = record { voting = record v { sent = [] }; tokens = k }

  pub data Action : Type 0 where
    stakes unstakes : ℕ → Asset → Action
    refunds : ℕ → Action
    votes : ℕ → ℕ → ℕ → List ℕ → Action
    moves : Actions.Action → Action

  -- What an action does in the system contract.
  unfoldable pub vote : Context → Action → VotingState → Result VotingState
  vote c (stakes voter q) s = addvote c voter q s
  vote c (unstakes voter q) s = subvote c voter q s
  vote c (refunds owner) s = voterefund c owner s
  vote c (votes old new voter producers) s = voteproducer c old new voter producers s
  vote c (moves a) s = ok s

  -- The memo of the transfer that the action sends, if it sends one.
  unfoldable pub memo_of : Action → String
  memo_of (stakes voter q) = "addvote"
  memo_of (unstakes voter q) = ""
  memo_of (refunds owner) = "voterefund"
  memo_of (votes old new voter producers) = ""
  memo_of (moves a) = ""

  unfoldable pub direct : Context → Action → TokenState → Result TokenState
  direct d (moves a) s = Actions.apply d a s
  direct d _ s = ok s

  -- `c` is the context of the action in the system contract, `d` that of the token contract.
  unfoldable pub apply : Context → Context → Action → Staking → Result Staking
  apply c d a s = do
    v ← vote c a s.voting
    j ← direct d a s.tokens
    k ← pay d (memo_of a) v.sent j
    ok (settled v k)

  -- An action that fails is rolled back.
  unfoldable pub run : List (Context × Context × Action) → Staking → Staking
  run [] s = s
  run ((c, d, a) ∷ rest) s = elim (apply c d a s) as (λ _. Staking) [
    | ok t ↦ run rest t
    | err e ↦ run rest s
  ]
