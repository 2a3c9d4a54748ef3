-- ===== src/Reward/Voting.antt =====
-- `flon_reward::voteproducer`: the merge of a voter's producers with a new list, and the three
-- settlements that follow it.
use flon_contracts.Base.{
  ℕ, Bool, true, false, List, [], ◌∷◌, pos, ◌-ℤ◌, i64, ltb, Result, ok, ◌>>=◌, ◌>>◌, check, insert,
  if◌then◌else◌,
}
use flon_contracts.Chain.{AssetOps, Context}
use flon_contracts.Reward.Map.{emplace, assign, remove}
use flon_contracts.Reward.Defs.{
  VotedProducerMap, RewardState, core_symbol, new_voter, system_contract, require_auth, row_or_new,
  check_init, allocate_producer_rewards,
}

-- `check( producers[i - 1] < producers[i] )` for every i
unfoldable pub is_increasing : List ℕ → Bool
is_increasing [] = true
is_increasing (x ∷ []) = true
is_increasing (x ∷ y ∷ rest) =
    let more = is_increasing (y ∷ rest) in if ltb x y then more else false

-- The voter's map after the loop, and the maps of what was removed and what is added.
pub record Merged : Type 0 where
  pub kept : VotedProducerMap
  pub removed_prods : VotedProducerMap
  pub added_prods : VotedProducerMap

-- The loop over the iterators `old_prod_itr`, what is left of the old map, and `new_prod_itr`.
unfoldable pub merge : VotedProducerMap → List ℕ → Merged → Merged
merge [] [] s = s
merge [] (n ∷ news) s = merge [] news (record s { added_prods = assign n (pos 0) s.added_prods })
merge (o ∷ olds) [] s =
    merge olds []
      (record s { kept = remove o.0 s.kept; removed_prods = emplace o.0 o.1 s.removed_prods })
merge (o ∷ olds) (n ∷ news) s = elim (ltb o.0 n) [
  | true ↦
      merge olds (n ∷ news)
        (record s { kept = remove o.0 s.kept; removed_prods = emplace o.0 o.1 s.removed_prods })
  | false ↦ elim (ltb n o.0) [
    | true ↦ merge (o ∷ olds) news (record s { added_prods = assign n (pos 0) s.added_prods })
    | false ↦ merge olds news s
  ]
]

-- `for (auto& added_prod : added_prods) v.producers.emplace(added_prod)`
unfoldable pub emplace_all : VotedProducerMap → VotedProducerMap → VotedProducerMap
emplace_all [] m = m
emplace_all ((k, v) ∷ rest) m = emplace_all rest (emplace k v m)

module _ ⦃ops : AssetOps⦄ where
  unfoldable pub voteproducer : Context → ℕ → List ℕ → RewardState → Result RewardState
  voteproducer c voter producers s = do
    check_init s
    require_auth c system_contract
    require_auth c voter
    check (is_increasing producers) "producer votes must be uniqued and sorted"
    let sym = core_symbol s
    let v = row_or_new voter (new_voter voter s.fresh_votes sym) s.voters
    let merged =
        merge v.producers producers
          (record { kept = v.producers; removed_prods = []; added_prods = [] })
    (removed, table, unclaimed) ←
        allocate_producer_rewards c.now_slot sym merged.removed_prods v.votes
          (i64 (pos 0 -ℤ v.votes)) s.producers v.unclaimed_rewards
    (kept, table', unclaimed') ←
        allocate_producer_rewards c.now_slot sym merged.kept v.votes (pos 0) table unclaimed
    (added, table'', unclaimed'') ←
        allocate_producer_rewards c.now_slot sym merged.added_prods (pos 0) v.votes table'
          unclaimed'
    let v' = record v {
      producers = emplace_all added kept;
      unclaimed_rewards = unclaimed'';
      update_at = c.now_slot;
    }
    ok (record s { voters = insert voter v' s.voters; producers = table'' })
