-- ===== src/FastSync/Tests.antt =====
-- Blocks that are their heights, received in any order and processed.
use tendermintx.Common.{
  ℤ, pos, ◌+ℤ◌, ℤ-discrete, ℕ_discrete, find, store, remove, true, false, some, List, [], ◌∷◌, ◌≡◌,
  refl, length, ok,
}
use tendermintx.FastSync.Processor.{
  Context, Event, block_received, process_block, PcState, height, new_pc_state, next_two, enqueue,
  process, handle, run,
}
use tendermintx.FastSync.Synced.{Chain}
use tendermintx.FastSync.Run.{run-IsSynced}

-- A block and a state are heights, and a commit is the height that it is for.
height_context : Context ℤ ℤ ℤ
height_context = record {
  height_of = λ b. b;
  last_commit = λ b. b;
  block_id = λ b. record { hash = []; parts = record { total = 0; hash = [] } };
  last_block_height = λ s. s;
  chain_id = λ s. [];
  verify_commit = λ s c i h commit. true;
  apply_block = λ s i b. some b;
  apply_block-height = λ s i b e. cc;
}

abbrev deliveries : List (Event ℤ ℤ)
deliveries =
    block_received (2 ∷ []) (some (pos 2))
    ∷ block_received (1 ∷ []) (some (pos 1))
    ∷ process_block
    ∷ []

abbrev final : PcState ℤ ℤ ℤ
final = record {
  queue = (pos 2, record { block = pos 2; peer = 2 ∷ [] }) ∷ [];
  draining = false;
  blocks_synced = 1;
  state = pos 1;
  saved = (pos 1, pos 2) ∷ [];
}

deliveries-run : run height_context deliveries (new_pc_state height_context (pos 0)) ≡ ok final
unfolding run handle enqueue next_two process new_pc_state height_context find store remove ◌+ℤ◌
    ℤ-discrete ℕ_discrete
deliveries-run = refl

run-IsSynced_example :
    (Chain height_context (height_context.last_block_height (pos 0)) final.saved)
    × (length final.saved ≡ final.blocks_synced)
    × (height height_context final
        ≡ height_context.last_block_height (pos 0) +ℤ pos final.blocks_synced)
run-IsSynced_example =
    run-IsSynced height_context (pos 0) deliveries (tt, (tt, (tt, tt))) deliveries-run
