-- ===== src/System/BlockInfo/Batch.antt =====
-- About `get_latest_block_batch_info` of contracts/flon.system/include/flon.system/block_info.hpp.
use flon_contracts.Base.{ℕ, ◌-◌, ◌%◌, ◌≤◌, ◌<◌, ◌≡◌, [], ◌∷◌, some, Option-cases, inl, inr, arith}
use flon_contracts.System.BlockInfo.{
  BlockInfoRecord, BlockInfoTable, BlockBatchInfo, no_error, last_record, find_record, batch_start,
  get_latest_block_batch_info,
}

find_record-height :
    (h : ℕ) (t : BlockInfoTable) (r : BlockInfoRecord)
    → find_record h t ≡ some r
    → r.block_height ≡ h
unfolding find_record
find_record-height h [] r e = ground arith
find_record-height h (x ∷ t) r e = ground (arith, find_record-height h t r)

abbrev pub InBatch : ℕ → ℕ → BlockBatchInfo → Type 0
InBatch offset batch_size b =
    (offset ≤ b.batch_start_height)
    × (b.batch_start_height ≤ b.batch_current_end_height)
    × (b.batch_current_end_height - b.batch_start_height < batch_size)
    × ((b.batch_current_end_height - offset) % batch_size
        ≡ b.batch_current_end_height - b.batch_start_height)

batch_bounds :
    (offset batch_size end_height : ℕ) (b : BlockBatchInfo)
    → 0 < batch_size
    → offset ≤ end_height
    → b.batch_current_end_height ≡ end_height
    → b.batch_start_height ≡ batch_start offset batch_size end_height
    → InBatch offset batch_size b
batch_bounds offset batch_size end_height b p le e f =
    let low : (end_height - offset) % batch_size ≤ end_height - offset = omega arith in
    let high : (end_height - offset) % batch_size < batch_size = omega arith in
    rw (e, f) (omega arith, omega arith, omega arith, omega arith)

-- A batch that is reported ends at the newest recorded block, whose time it carries, is not empty,
-- has at most `batch_size` blocks, and starts a multiple of `batch_size` after the offset.
pub get_latest_block_batch_info-InBatch :
    (offset batch_size : ℕ) (t : BlockInfoTable) (b : BlockBatchInfo)
    → get_latest_block_batch_info offset batch_size t ≡ no_error b
    → InBatch offset batch_size b
      × ((latest : BlockInfoRecord) × (last_record t ≡ some latest)
          × (b.batch_current_end_height ≡ latest.block_height)
          × (b.batch_current_end_timestamp ≡ latest.block_timestamp))
unfolding get_latest_block_batch_info
get_latest_block_batch_info-InBatch offset batch_size t b h = elim (Option-cases (last_record t)) [
  | inl e ↦ ground arith
  | inr (latest, e) ↦
      let start = batch_start offset batch_size latest.block_height in
      elim (Option-cases (find_record start t)) [
        | inl f ↦ (
          batch_bounds offset batch_size latest.block_height b (ground arith) (ground arith)
              (ground arith) (ground arith),
          (latest, e, ground arith, ground arith),
        )
        | inr (first, f) ↦
            let height = find_record-height start t first f in
            (
              batch_bounds offset batch_size latest.block_height b (ground arith) (ground arith)
                  (ground arith) (ground (arith, height)),
              (latest, e, ground arith, ground arith),
            )
      ]
]
