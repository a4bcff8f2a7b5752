-- ===== src/FastSync/Processor.antt =====
-- The state and the handler of events.
use tendermintx.Common.{
  ℕ, ◌+◌, ℤ, pos, ◌+ℤ◌, ltb_ℤ, ℤ-discrete, Bytes, Bytes-discrete, Bool, true, false, Option, none,
  some, List, [], ◌∷◌, ◌≡◌, leb, length, if◌then◌else◌, holds, find, store, remove, Run, ok, panic,
  ◌>>=◌,
}
use tendermintx.Types.BlockId.{BlockId}

-- `processorContext`, and the parts of a block and of a state that the processor reads. `none` of
-- `apply_block` is an error. A block that is applied becomes the last one of the state.
pub record Context (Block Commit State : Type 0) : Type 0 where
  pub height_of : Block → ℤ
  pub last_commit : Block → Commit
  pub block_id : Block → BlockId
  pub last_block_height : State → ℤ
  pub chain_id : State → Bytes
  pub verify_commit : State → Bytes → BlockId → ℤ → Commit → Bool
  pub apply_block : State → BlockId → Block → Option State
  pub apply_block-height :
      (s : State) (b : BlockId) (x : Block) {t : State}
      → apply_block s b x ≡ some t
      → last_block_height t ≡ height_of x

pub data Event (Block State : Type 0) : Type 0 where
  reset_state : State → Event Block State
  scheduler_finished : Event Block State
  peer_error : Bytes → Event Block State
  block_received : Bytes → Option Block → Event Block State
  process_block : Event Block State
  other_event : Event Block State

pub data Output (State : Type 0) : Type 0 where
  no_op : Output State
  finished : ℕ → State → Output State
  verification_failure : ℤ → Bytes → Bytes → Output State
  processed : ℤ → Bytes → Output State

pub record QueueItem (Block : Type 0) : Type 0 where
  pub block : Block
  pub peer : Bytes

pub record PcState (Block Commit State : Type 0) : Type 0 where
  pub queue : List (ℤ × QueueItem Block)
  pub draining : Bool
  pub blocks_synced : ℕ
  pub state : State
  pub saved : List (Block × Commit)

module _ {Block Commit State : Type 0} (ctx : Context Block Commit State) where
  abbrev P : Type 0
  P = PcState Block Commit State

  unfoldable pub new_pc_state : State → P
  new_pc_state s = record { queue = []; draining = false; blocks_synced = 0; state = s; saved = [] }

  abbrev pub height : P → ℤ
  height p = ctx.last_block_height p.state

  unfoldable pub next_two : P → Option (QueueItem Block × QueueItem Block)
  next_two p = elim (find ℤ-discrete (height p +ℤ pos 1) p.queue) [
    | none ↦ none
    | some first ↦ elim (find ℤ-discrete (height p +ℤ pos 2) p.queue) [
      | none ↦ none
      | some second ↦ some (first, second)
    ]
  ]

  abbrev pub synced : P → Bool
  synced p = leb (length p.queue) 1

  unfoldable pub enqueue : Bytes → Block → ℤ → P → Run P
  enqueue peer block h p = elim (find ℤ-discrete h p.queue) [
    | some _ ↦ panic
    | none ↦
        ok (record p { queue = store ℤ-discrete h (record { block = block; peer = peer }) p.queue })
  ]

  unfoldable pub without_peer : Bytes → List (ℤ × QueueItem Block) → List (ℤ × QueueItem Block)
  without_peer peer [] = []
  without_peer peer ((h, item) ∷ q) =
      let rest = without_peer peer q in
      if holds (Bytes-discrete item.peer peer) then rest else (h, item) ∷ rest

  unfoldable pub purge_peer : Bytes → P → P
  unfolding without_peer
  purge_peer peer p = record p { queue = without_peer peer p.queue }

  -- The event `rProcessBlock` with the next two blocks there.
  unfoldable pub process : QueueItem Block → QueueItem Block → P → Run (P × Output State)
  unfolding purge_peer
  process first second p =
      let first_id = ctx.block_id first.block in
      let commit = ctx.last_commit second.block in
      let h = ctx.height_of first.block in
      if ctx.verify_commit p.state (ctx.chain_id p.state) first_id h commit
      then elim (ctx.apply_block p.state first_id first.block) [
        | none ↦ panic
        | some s ↦ ok (
          record p {
            queue = remove ℤ-discrete h p.queue;
            blocks_synced = p.blocks_synced + 1;
            state = s;
            saved = (first.block, commit) ∷ p.saved;
          },
          processed h first.peer,
        )
      ]
      else ok (
        purge_peer second.peer (purge_peer first.peer p),
        verification_failure h first.peer second.peer,
      )

  unfoldable pub handle : Event Block State → P → Run (P × Output State)
  unfolding enqueue purge_peer next_two process
  handle (reset_state s) p = ok (record p { state = s }, no_op)
  handle scheduler_finished p =
      if synced p
      then ok (p, finished p.blocks_synced p.state)
      else ok (record p { draining = true }, no_op)
  handle (peer_error peer) p = ok (purge_peer peer p, no_op)
  handle (block_received peer none) p = ok (p, no_op)
  handle (block_received peer (some block)) p =
      if ltb_ℤ (height p) (ctx.height_of block)
      then (enqueue peer block (ctx.height_of block) p >>= λ q. ok (q, no_op))
      else ok (p, no_op)
  handle process_block p = elim (next_two p) [
    | some (first, second) ↦ process first second p
    | none ↦ if p.draining then ok (p, finished p.blocks_synced p.state) else ok (p, no_op)
  ]
  handle other_event p = ok (p, no_op)

  unfoldable pub run : List (Event Block State) → P → Run P
  unfolding handle
  run [] p = ok p
  run (e ∷ es) p = handle e p >>= λ r. run es r.0
