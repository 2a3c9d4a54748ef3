-- ===== src/Reward/History.antt =====
-- Histories of the actions of contracts/flon.reward/src/flon.reward.cpp.
use flon_contracts.Base.{
  ℕ, ◌≡◌, ◌∙◌, refl, sym, ap, subst, All, pos, Bool-cases, List, [], ◌∷◌, ℤ, true, false, Result,
  ok, err, Result-cases, inl, inr, arith,
}
use flon_contracts.Chain.{Symbol, symbol_eq, asset, Asset, AssetOps, Context}
use flon_contracts.Reward.Defs.{
  RewardState, core_symbol, init, regproducer, addvote, subvote, claimrewards, claimfor, ontransfer,
}
use flon_contracts.Reward.Voting.{voteproducer}
use flon_contracts.Reward.Custody.{Custody, change_vote-Custody, regproducer-Custody}
use flon_contracts.Reward.Ledger.{claim_rewards-Custody, ontransfer-Custody, voteproducer-Custody}

pub data Action : Type 0 where
  inits : Symbol → Action
  registers : ℕ → Action
  adds_vote subtracts_vote : ℕ → ℤ → Action
  votes : ℕ → List ℕ → Action
  claims : ℕ → Action
  claims_for : ℕ → ℕ → Action
  receives : ℕ → ℕ → ℕ → Asset → Action

abbrev pub after : {S : Type 0} → S → Result S → S
after s (ok t) = t
after s (err e) = s

module _ ⦃ops : AssetOps⦄ where
  unfoldable pub apply : Context → Action → RewardState → Result RewardState
  apply c (inits core) s = init c core s
  apply c (registers p) s = regproducer c p s
  apply c (adds_vote v n) s = addvote c v n s
  apply c (subtracts_vote v n) s = subvote c v n s
  apply c (votes v ps) s = voteproducer c v ps s
  apply c (claims v) s = claimrewards c v s
  apply c (claims_for x v) s = claimfor c x v s
  apply c (receives r from to q) s = ontransfer c r from to q s

  unfoldable pub run : List (Context × Action) → RewardState → RewardState
  run [] s = s
  run ((c, a) ∷ rest) s = run rest (after s (apply c a s))

  -- No rewards have been counted before the contract is initialized.
  abbrev pub NoneBefore : RewardState → Type 0
  NoneBefore s = ops.symbol_is_valid (core_symbol s) ≡ false → s.total_rewards.amount ≡ pos 0

  -- The token contract has no tokens of an invalid symbol.
  abbrev pub RealTokens : Context × Action → Type 0
  RealTokens (c, receives r from to q) = ops.symbol_is_valid q.symbol ≡ true
  RealTokens (c, _) = Unit

  init-Custody :
      (c : Context) (core : Symbol) (s t : RewardState)
      → Custody s
      → NoneBefore s
      → init c core s ≡ ok t
      → Custody t × NoneBefore t
  unfolding init
  init-Custody c core s t h z e =
      let done : t ≡ record s { total_rewards = asset (pos 0) core } = ground arith in
      let fresh : ops.symbol_is_valid (core_symbol s) ≡ false = ground arith in
      rw done (h ∙ z fresh, λ _. refl)

  same_symbol : (a b : Symbol) → symbol_eq a b ≡ true → a ≡ b
  same_symbol a b h = ground arith

  -- Before the initialization no notification counts.
  ontransfer_before :
      (c : Context) (r from to : ℕ) (q : Asset) (s t : RewardState)
      → ops.symbol_is_valid q.symbol ≡ true
      → ops.symbol_is_valid (core_symbol s) ≡ false
      → ontransfer c r from to q s ≡ ok t
      → t ≡ s
  unfolding ontransfer
  ontransfer_before c r from to q s t valid fresh e =
      elim (Bool-cases (symbol_eq q.symbol (core_symbol s))) [
        | inr other ↦ ground (arith, other)
        | inl same ↦
            let equal = same_symbol q.symbol (core_symbol s) same in
            ground (arith, valid, fresh, ap ops.symbol_is_valid equal)
      ]

  kept_total :
      (s t : RewardState)
      → NoneBefore s
      → Custody t × (t.total_rewards ≡ s.total_rewards)
      → Custody t × NoneBefore t
  kept_total s t z (h, same) = (
    h,
    subst (λ (x : Asset). ops.symbol_is_valid x.symbol ≡ false → x.amount ≡ pos 0) (sym same) z,
  )

  apply-Custody :
      (c : Context) (a : Action) (s t : RewardState)
      → RealTokens (c, a)
      → Custody s
      → NoneBefore s
      → apply c a s ≡ ok t
      → Custody t × NoneBefore t
  unfolding apply addvote subvote claimrewards claimfor
  apply-Custody c (inits core) s t f h z e = init-Custody c core s t h z e
  apply-Custody c (registers p) s t f h z e = kept_total s t z (regproducer-Custody c p s t h e)
  apply-Custody c (adds_vote v n) s t f h z e =
      kept_total s t z (change_vote-Custody c v n true s t h (ground arith))
  apply-Custody c (subtracts_vote v n) s t f h z e =
      kept_total s t z (change_vote-Custody c v n false s t h (ground arith))
  apply-Custody c (votes v ps) s t f h z e = kept_total s t z (voteproducer-Custody c v ps s t h e)
  apply-Custody c (claims v) s t f h z e =
      kept_total s t z (claim_rewards-Custody c v s t h (ground arith))
  apply-Custody c (claims_for x v) s t f h z e =
      kept_total s t z (claim_rewards-Custody c v s t h (ground arith))
  apply-Custody c (receives r from to q) s t f h z e =
      let (kept, symbol) = ontransfer-Custody c r from to q s t h e in
      (
        kept,
        λ fresh.
            let before : ops.symbol_is_valid (core_symbol s) ≡ false =
              subst (λ y. ops.symbol_is_valid y ≡ false) symbol fresh in
            rw (ontransfer_before c r from to q s t f before e) (z before),
      )

  -- After any history of actions the rewards received are, to the last unit, those that producers
  -- still have to allocate, those that voters can claim and those that have been paid out, if they
  -- were so before, if none had been counted before the initialization, and if all tokens that the
  -- contract is notified of have a valid symbol.
  pub run-Custody :
      (history : List (Context × Action)) (s : RewardState)
      → All RealTokens history
      → NoneBefore s
      → Custody s
      → Custody (run history s)
  unfolding run
  run-Custody [] s f z h = h
  run-Custody ((c, a) ∷ rest) s f z h = elim (Result-cases (apply c a s)) [
    | inl (t, e) ↦
        let (h', z') = apply-Custody c a s t f.0 h z e in rw (e, run) (run-Custody rest t f.1 z' h')
    | inr (m, e) ↦ rw (e, run) (run-Custody rest s f.1 z h)
  ]
