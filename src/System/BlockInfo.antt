-- ===== src/System/BlockInfo.antt =====
-- contracts/flon.system/src/block_info.cpp and block_info.hpp: the rolling window of recent blocks.
pub mod Window
pub mod Batch
use Prim.Native.Nat.{bit_or}
use flon_contracts.Base.{
  ℕ, zero, suc, ◌+◌, ◌-◌, ◌*◌, ◌%◌, ◌^◌, max, Bool, true, false, ◌&&◌, List, [], ◌∷◌, Option, none,
  some, ltb, leb, ◌==◌, if◌then◌else◌, Result, ok, err, ◌>>=◌,
}

abbrev pub rolling_window_size : ℕ
rolling_window_size = 10

pub record BlockInfoRecord : Type 0 where
  pub version : ℕ
  pub block_height : ℕ
  pub block_timestamp : ℕ

-- The table in the order of its key, the height.
abbrev pub BlockInfoTable : Type 0
BlockInfoTable = List BlockInfoRecord

-- Big-endian, from the first four bytes of the id; `uint32_t`.
unfoldable pub block_height_from_id : ℕ → ℕ → ℕ → ℕ → ℕ
block_height_from_id a b c d =
    bit_or (bit_or (bit_or (a * 2 ^ 24) (b * 2 ^ 16)) (c * 2 ^ 8)) d % 2 ^ 32

-- `t.emplace`: a key that is there is refused.
unfoldable pub emplace : BlockInfoRecord → BlockInfoTable → Result BlockInfoTable
emplace r [] = ok (r ∷ [])
emplace r (x ∷ t) =
    let rest = emplace r t in
    if ltb r.block_height x.block_height
    then ok (r ∷ x ∷ t)
    else if r.block_height == x.block_height
    then err "could not insert object, most likely a uniqueness constraint was violated"
    else (do t' ← rest; ok (x ∷ t'))

-- The loop that erases from the oldest record on, `count` records at most.
unfoldable pub prune : ℕ → ℕ → BlockInfoTable → BlockInfoTable
prune zero last_prunable_block_height t = t
prune (suc count) last_prunable_block_height [] = []
prune (suc count) last_prunable_block_height (r ∷ t) =
    let rest = prune count last_prunable_block_height t in
    if leb r.block_height last_prunable_block_height then rest else r ∷ t

-- `previous_height` is the height in the id of the previous block.
unfoldable pub add_to_blockinfo_table : ℕ → ℕ → BlockInfoTable → Result BlockInfoTable
add_to_blockinfo_table previous_height timestamp t = do
  let new_block_height = (previous_height + 1) % 2 ^ 32
  t' ←
      emplace (record { version = 0; block_height = new_block_height; block_timestamp = timestamp })
        t
  let last_prunable_block_height = max new_block_height rolling_window_size - rolling_window_size
  ok (prune 2 last_prunable_block_height t')

pub record BlockBatchInfo : Type 0 where
  pub batch_start_height : ℕ
  pub batch_start_timestamp : ℕ
  pub batch_current_end_height : ℕ
  pub batch_current_end_timestamp : ℕ

pub data ErrorCode : Type 0 where
  invalid_input unsupported_version insufficient_data : ErrorCode

-- Either a result, whose code is `no_error`, or the code of an error.
pub data LatestBlockBatchInfoResult : Type 0 where
  no_error : BlockBatchInfo → LatestBlockBatchInfoResult
  failed : ErrorCode → LatestBlockBatchInfoResult

-- `--t.cend()`
unfoldable pub last_record : BlockInfoTable → Option BlockInfoRecord
last_record [] = none
last_record (r ∷ []) = some r
last_record (r ∷ x ∷ t) = last_record (x ∷ t)

-- `t.find( height )`
unfoldable pub find_record : ℕ → BlockInfoTable → Option BlockInfoRecord
find_record h [] = none
find_record h (r ∷ t) = if r.block_height == h then some r else find_record h t

abbrev pub batch_start : ℕ → ℕ → ℕ → ℕ
batch_start offset batch_size end_height = end_height - (end_height - offset) % batch_size

abbrev batch_info : BlockInfoRecord → BlockInfoRecord → LatestBlockBatchInfoResult
batch_info start latest = no_error (record {
  batch_start_height = start.block_height;
  batch_start_timestamp = start.block_timestamp;
  batch_current_end_height = latest.block_height;
  batch_current_end_timestamp = latest.block_timestamp;
})

-- The part of `get_latest_block_batch_info` that looks up the start of the batch.
unfoldable pub find_batch : ℕ → BlockInfoRecord → BlockInfoTable → LatestBlockBatchInfoResult
find_batch start_height latest t =
    if start_height == latest.block_height
    then batch_info latest latest
    else elim (find_record start_height t) [
      | none ↦ failed insufficient_data
      | some start ↦
          if start.version == 0 then batch_info start latest else failed unsupported_version
    ]

unfoldable pub get_latest_block_batch_info : ℕ → ℕ → BlockInfoTable → LatestBlockBatchInfoResult
unfolding find_batch
get_latest_block_batch_info batch_start_height_offset batch_size t =
    if batch_size == 0 then failed invalid_input else elim (last_record t) [
      | none ↦ failed insufficient_data
      | some latest ↦
          if latest.version == 0
          then if ltb latest.block_height batch_start_height_offset
            then failed insufficient_data
            else find_batch (batch_start batch_start_height_offset batch_size latest.block_height)
                latest t
          else failed unsupported_version
    ]
