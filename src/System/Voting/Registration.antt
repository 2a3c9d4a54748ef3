-- ===== src/System/Voting/Registration.antt =====
-- contracts/flon.system/src/voting.cpp, and `rmvproducer` of src/flon.system.cpp: how producers are
-- registered and deactivated.
use Prim.Native.String.{len}
use flon_contracts.Base.{
  ℕ, ◌≡◌, refl, Bool, true, false, Option, none, some, [], ◌∷◌, ltb, leb, ◌==◌, pos, if◌then◌else◌,
  arith, Result, ok, ◌>>=◌, ◌>>◌, check, or_fail, Dict, lookup, insert, String, Option-cases, inl,
  inr,
}
use flon_contracts.Chain.{Symbol, asset, AssetOps, Context}
use flon_contracts.Reward.Defs.{Producer}
use flon_contracts.System.Voting.{
  Authority, ProducerInfo, VotingState, Inline, require_auth, core_symbol, send, deactivate,
  ratio_boost,
}
use flon_contracts.System.Voting.Elected.{Elected, votes_of, votes_of-insert}

-- `flon_reward::is_producer_registered`, on the producer table of the reward contract.
unfoldable pub is_producer_registered : ℕ → Dict Producer → Bool
is_producer_registered producer table = elim (lookup producer table) [
  | none ↦ false
  | some p ↦ p.is_registered
]

abbrev pub convert_to_block_signing_authority : ℕ → Authority
convert_to_block_signing_authority producer_key = record {
  threshold = 1;
  keys = (producer_key, 1) ∷ [];
}

-- The key of an authority that has one only, else the empty key.
abbrev pub legacy_key : Authority → ℕ
legacy_key a = elim a.keys [ [] ↦ 0 | k ∷ rest ↦ elim rest [ [] ↦ k.0 | _ ∷ _ ↦ 0 ] ]

abbrev within : Option ℕ → Bool
within none = true
within (some ratio) = leb ratio ratio_boost

abbrev ratio_or : ℕ → Option ℕ → ℕ
ratio_or old none = old
ratio_or old (some ratio) = ratio

module _ ⦃ops : AssetOps⦄ where
  -- The row that registration writes over the row `old`, if there is one.
  abbrev pub registered_row :
      Context → Symbol → ℕ → Authority → String → ℕ → Option ℕ → Option ProducerInfo → ProducerInfo
  registered_row c core producer authority url location ratio (some old) = record old {
    producer_key = legacy_key authority;
    is_active = true;
    url = url;
    location = location;
    producer_authority = authority;
    last_claim_time = if old.last_claim_time == 0 then c.now else old.last_claim_time;
    reward_shared_ratio = ratio_or old.reward_shared_ratio ratio;
  }
  registered_row c core producer authority url location ratio none = record {
    owner = producer;
    total_votes = pos 0;
    producer_key = legacy_key authority;
    is_active = true;
    url = url;
    unclaimed_rewards = asset (pos 0) core;
    last_claim_time = c.now;
    location = location;
    producer_authority = authority;
    reward_shared_ratio = ratio_or 0 ratio;
  }

  -- `rewarded` is the producer table of the reward contract.
  unfoldable pub register_producer :
      Context
      → Dict Producer
      → ℕ
      → Authority
      → String
      → ℕ
      → Option ℕ
      → VotingState
      → Result VotingState
  register_producer c rewarded producer authority url location ratio s = do
    check (ltb (len url) 512) "url too long"
    check (within ratio) "reward_shared_ratio is too large"
    core ← core_symbol s
    let row =
        registered_row c core producer authority url location ratio (lookup producer s.producers)
    let s1 =
        if is_producer_registered producer rewarded
        then s
        else send (Inline.reward_regproducer producer) s
    ok (record s1 { producers = insert producer row s.producers })

  unfoldable pub regproducer :
      Context → Dict Producer → ℕ → ℕ → String → ℕ → Option ℕ → VotingState → Result VotingState
  unfolding register_producer
  regproducer c rewarded producer producer_key url location ratio s = do
    require_auth c producer
    check (ltb (len url) 512) "url too long"
    register_producer c rewarded producer (convert_to_block_signing_authority producer_key) url
        location ratio s

  -- `is_valid` is the library's check of an authority.
  unfoldable pub regproducer2 :
      (Authority → Bool)
      → Context
      → Dict Producer
      → ℕ
      → Authority
      → String
      → ℕ
      → Option ℕ
      → VotingState
      → Result VotingState
  unfolding register_producer
  regproducer2 is_valid c rewarded producer authority url location ratio s = do
    require_auth c producer
    check (ltb (len url) 512) "url too long"
    check (is_valid authority) "invalid producer authority"
    register_producer c rewarded producer authority url location ratio s

unfoldable pub unregprod : Context → ℕ → VotingState → Result VotingState
unregprod c producer s = do
  require_auth c producer
  p ← or_fail (lookup producer s.producers) "producer not found"
  ok (record s { producers = insert producer (deactivate p) s.producers })

unfoldable pub rmvproducer : Context → ℕ → VotingState → Result VotingState
rmvproducer c producer s = do
  require_auth c c.self
  p ← or_fail (lookup producer s.producers) "producer not found"
  ok (record s { producers = insert producer (deactivate p) s.producers })

-- A row is written that has the votes which the producer had, and no voter changes.
abbrev pub SameVotes : VotingState → VotingState → Type 0
SameVotes s t = ((k : ℕ) → votes_of k t.producers ≡ votes_of k s.producers) × (t.voters ≡ s.voters)

pub SameVotes-Elected : (s t : VotingState) → SameVotes s t → Elected s → Elected t
SameVotes-Elected s t (same, voters) inv k = rw (same k, voters) (inv k)

rewritten :
    (producer : ℕ) (p : ProducerInfo) (table : Dict ProducerInfo)
    → p.total_votes ≡ votes_of producer table
    → (k : ℕ) → votes_of k (insert producer p table) ≡ votes_of k table
rewritten producer p table e k = ground (arith, votes_of-insert k producer p table, e)

pub unregprod_votes :
    (c : Context) (producer : ℕ) (s t : VotingState) → unregprod c producer s ≡ ok t → SameVotes s t
unfolding unregprod deactivate
unregprod_votes c producer s t h = elim (Option-cases (lookup producer s.producers)) [
  | inl e ↦ ground arith
  | inr (p, e) ↦
      let written : t ≡ record s { producers = insert producer (deactivate p) s.producers } =
        ground arith in
      rw written (rewritten producer (deactivate p) s.producers (ground (arith, e)), refl)
]

pub rmvproducer_votes :
    (c : Context) (producer : ℕ) (s t : VotingState)
    → rmvproducer c producer s ≡ ok t
    → SameVotes s t
unfolding rmvproducer deactivate
rmvproducer_votes c producer s t h = elim (Option-cases (lookup producer s.producers)) [
  | inl e ↦ ground arith
  | inr (p, e) ↦
      let written : t ≡ record s { producers = insert producer (deactivate p) s.producers } =
        ground arith in
      rw written (rewritten producer (deactivate p) s.producers (ground (arith, e)), refl)
]

module _ ⦃ops : AssetOps⦄ where
  register_producer_written :
      (c : Context) (rewarded : Dict Producer) (producer : ℕ) (authority : Authority) (url : String)
      (location : ℕ) (ratio : Option ℕ) (s t : VotingState)
      → register_producer c rewarded producer authority url location ratio s ≡ ok t
      → (t.producers
          ≡ insert producer
              (registered_row c s.total_vote_stake.symbol producer authority url location ratio
                (lookup producer s.producers))
              s.producers)
        × (t.voters ≡ s.voters)
  unfolding register_producer
  register_producer_written c rewarded producer authority url location ratio s t h = ground arith

  register_producer_votes :
      (c : Context) (rewarded : Dict Producer) (producer : ℕ) (authority : Authority) (url : String)
      (location : ℕ) (ratio : Option ℕ) (s t : VotingState)
      → register_producer c rewarded producer authority url location ratio s ≡ ok t
      → SameVotes s t
  register_producer_votes c rewarded producer authority url location ratio s t h =
      let (e, f) =
        register_producer_written c rewarded producer authority url location ratio s t h in
      rw e (rewritten producer _ s.producers (kept (lookup producer s.producers) refl), f)
    where
      kept :
          (o : Option ProducerInfo)
          → lookup producer s.producers ≡ o
          → (registered_row c s.total_vote_stake.symbol producer authority url location ratio
              o).total_votes
            ≡ votes_of producer s.producers
      kept none e = rw (e, votes_of) refl
      kept (some p) e = rw (e, votes_of) refl

  pub regproducer_votes :
      (c : Context) (rewarded : Dict Producer) (producer producer_key : ℕ) (url : String)
      (location : ℕ) (ratio : Option ℕ) (s t : VotingState)
      → regproducer c rewarded producer producer_key url location ratio s ≡ ok t
      → SameVotes s t
  unfolding regproducer
  regproducer_votes c rewarded producer producer_key url location ratio s t h =
      register_producer_votes c rewarded producer (convert_to_block_signing_authority producer_key)
        url location ratio s t (ground arith)

  pub regproducer2_votes :
      (is_valid : Authority → Bool) (c : Context) (rewarded : Dict Producer) (producer : ℕ)
      (authority : Authority) (url : String) (location : ℕ) (ratio : Option ℕ) (s t : VotingState)
      → regproducer2 is_valid c rewarded producer authority url location ratio s ≡ ok t
      → SameVotes s t
  unfolding regproducer2
  regproducer2_votes is_valid c rewarded producer authority url location ratio s t h =
      register_producer_votes c rewarded producer authority url location ratio s t (ground arith)
