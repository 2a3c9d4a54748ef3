-- ===== src/System/BlockInfo/Window.antt =====
-- About `add_to_blockinfo_table` of contracts/flon.system/src/block_info.cpp: the window of blocks.
use flon_contracts.Base.{
  ℕ, zero, suc, ◌+◌, ◌-◌, ◌%◌, ◌^◌, ◌≤◌, ◌<◌, ◌≡◌, max, [], ◌∷◌, ◌++◌, ok, arith,
}
use flon_contracts.System.BlockInfo.{
  BlockInfoRecord, BlockInfoTable, emplace, prune, add_to_blockinfo_table, rolling_window_size,
}

-- The records of `n` blocks in a row, from height `lo` on.
abbrev pub Window : ℕ → ℕ → BlockInfoTable → Type 0
Window lo zero [] = Unit
Window lo zero (r ∷ t) = ⊥
Window lo (suc n) [] = ⊥
Window lo (suc n) (r ∷ t) = (r.block_height ≡ lo) × Window (suc lo) n t

Window-snoc :
    (lo n : ℕ) (t : BlockInfoTable) (r : BlockInfoRecord)
    → Window lo n t
    → r.block_height ≡ lo + n
    → Window lo (suc n) (t ++ r ∷ [])
Window-snoc lo zero [] r w e = (omega arith, tt)
Window-snoc lo zero (x ∷ t) r w e = absurd w
Window-snoc lo (suc n) [] r w e = absurd w
Window-snoc lo (suc n) (x ∷ t) r w e = (w.0, Window-snoc (suc lo) n t r w.1 (omega arith))

emplace-snoc :
    (lo n : ℕ) (t : BlockInfoTable) (r : BlockInfoRecord)
    → Window lo n t
    → r.block_height ≡ lo + n
    → emplace r t ≡ ok (t ++ r ∷ [])
unfolding emplace
emplace-snoc lo zero [] r w e = ground arith
emplace-snoc lo zero (x ∷ t) r w e = absurd w
emplace-snoc lo (suc n) [] r w e = absurd w
emplace-snoc lo (suc n) (x ∷ t) r w e =
    ground (arith, emplace-snoc (suc lo) n t r w.1 (omega arith), w.0)

-- What `prune` leaves of a window of at most eleven blocks above height 0.
prune_full :
    (lo limit n : ℕ) (t : BlockInfoTable)
    → Window lo (suc n) t
    → lo ≡ limit
    → Window (suc lo) n (prune 2 limit t)
unfolding prune
prune_full lo limit n [] w e = absurd w
prune_full lo limit zero (r ∷ []) w e = ground arith
prune_full lo limit zero (r ∷ x ∷ t) w e = absurd w.1
prune_full lo limit (suc n) (r ∷ []) w e = absurd w.1
prune_full lo limit (suc n) (r ∷ x ∷ t) w e = ground (arith, w.0, w.1.0)

prune_none :
    (lo limit n : ℕ) (t : BlockInfoTable)
    → Window lo (suc n) t
    → limit < lo
    → Window lo (suc n) (prune 2 limit t)
unfolding prune
prune_none lo limit n [] w e = absurd w
prune_none lo limit n (r ∷ t) w e = ground (arith, w.0)

-- A table that holds the last `n` blocks, ten at most, all above height 0, takes the next block, whose
-- height is below 2 ^ 32, and then holds the last `n + 1` blocks, or the last ten if it held ten.
pub add_to_blockinfo_table-Window :
    (lo n h timestamp : ℕ) (t : BlockInfoTable)
    → Window lo n t
    → 0 < lo
    → lo + n ≡ h + 1
    → n ≤ rolling_window_size
    → h + 1 < 2 ^ 32
    → (t' : BlockInfoTable) × (add_to_blockinfo_table h timestamp t ≡ ok t')
      × ((n < rolling_window_size → Window lo (suc n) t')
          × (n ≡ rolling_window_size → Window (suc lo) n t'))
unfolding add_to_blockinfo_table
add_to_blockinfo_table-Window lo n h timestamp t w p e bound word = (
  prune 2 (max (h + 1) rolling_window_size - rolling_window_size) (t ++ r ∷ []),
  ground (arith, emplace-snoc lo n t r w (omega arith)),
  (
    λ below. prune_none lo _ n _ (Window-snoc lo n t r w (omega arith)) (omega arith),
    λ full. prune_full lo _ n _ (Window-snoc lo n t r w (omega arith)) (omega arith),
  ),
)
  where
    r : BlockInfoRecord
    r = record { version = 0; block_height = (h + 1) % 2 ^ 32; block_timestamp = timestamp }
