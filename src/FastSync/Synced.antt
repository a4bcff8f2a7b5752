-- ===== src/FastSync/Synced.antt =====
-- What fast sync has applied: consecutive blocks, each verified.
use tendermintx.Common.{
  ℕ, suc, ◌+◌, ℤ, pos, ◌+ℤ◌, ℤ-discrete, Bytes, Bytes-discrete, true, some, List, [], ◌∷◌, ◌≡◌, ◌⊎◌,
  inl, inr, refl, sym, ap, ◌∙◌, subst, arith, length, if◌then◌else◌, holds, find, store, remove,
  All, All-find, All-store, Option-cases, Bool-cases, ok,
}
use tendermintx.FastSync.Processor.{
  Context, Event, reset_state, Output, QueueItem, PcState, height, next_two, enqueue, without_peer,
  purge_peer, process,
}

module _ {V : Type 0} (Q : ℤ × V → Type 0) where
  All-remove : (k : ℤ) (m : List (ℤ × V)) → All Q m → All Q (remove ℤ-discrete k m)
  unfolding remove
  All-remove k [] h = tt
  All-remove k ((j, w) ∷ m) h =
      elim (ℤ-discrete j k)
        as (λ d.
          All Q (if holds d then remove ℤ-discrete k m else (j, w) ∷ remove ℤ-discrete k m)) [
            | yes _ ↦ All-remove k m h.1
            | no _ ↦ (h.0, All-remove k m h.1)
          ]

module _ {Block Commit State : Type 0} (ctx : Context Block Commit State) where
  abbrev P : Type 0
  P = PcState Block Commit State

  -- The block was verified by the commit against some state.
  abbrev pub IsVerified : Block × Commit → Type 0
  IsVerified (b, c) =
      (s : State) × (ctx.verify_commit s (ctx.chain_id s) (ctx.block_id b) (ctx.height_of b) c
        ≡ true)

  -- The saved blocks, the latest first, have the heights after `start` without a gap, and each one
  -- was verified.
  abbrev pub Chain : ℤ → List (Block × Commit) → Type 0
  Chain start [] = Unit
  Chain start (e ∷ l) =
      (ctx.height_of e.0 ≡ start +ℤ pos (suc (length l))) × IsVerified e × Chain start l

  pub record IsSynced (start : ℤ) (p : P) : Type 0 where
    pub queued : All (λ e. ctx.height_of e.1.block ≡ e.0) p.queue
    pub counted : length p.saved ≡ p.blocks_synced
    pub chained : Chain start p.saved
    pub at : height ctx p ≡ start +ℤ pos p.blocks_synced

  abbrev pub IsNoReset : Event Block State → Type 0
  IsNoReset (reset_state s) = ⊥
  IsNoReset _ = Unit

  All-without_peer :
      (peer : Bytes) (q : List (ℤ × QueueItem Block))
      → All (λ e. ctx.height_of e.1.block ≡ e.0) q
      → All (λ e. ctx.height_of e.1.block ≡ e.0) (without_peer ctx peer q)
  unfolding without_peer
  All-without_peer peer [] h = tt
  All-without_peer peer ((k, item) ∷ q) h =
      elim (Bytes-discrete item.peer peer)
        as (λ d.
          All (λ e. ctx.height_of e.1.block ≡ e.0)
            (if holds d then without_peer ctx peer q else (k, item) ∷ without_peer ctx peer q)) [
              | yes _ ↦ All-without_peer peer q h.1
              | no _ ↦ (h.0, All-without_peer peer q h.1)
            ]

  pub purge_peer-IsSynced :
      (start : ℤ) (peer : Bytes) (p : P) → IsSynced start p → IsSynced start (purge_peer ctx peer p)
  unfolding purge_peer
  purge_peer-IsSynced start peer p i = record {
    queued = All-without_peer peer p.queue i.queued;
    counted = i.counted;
    chained = i.chained;
    at = i.at;
  }

  next_height_lem : (start h : ℤ) (n : ℕ) → h ≡ start +ℤ pos n → h +ℤ pos 1 ≡ start +ℤ pos (suc n)
  unfolding ◌+ℤ◌
  next_height_lem start h n e = ground arith

  next_two-first :
      (p : P) (first second : QueueItem Block)
      → next_two ctx p ≡ some (first, second)
      → find ℤ-discrete (height ctx p +ℤ pos 1) p.queue ≡ some first
  unfolding next_two
  next_two-first p first second e =
      elim (Option-cases (find ℤ-discrete (height ctx p +ℤ pos 1) p.queue)) [
        | inl missing ↦ absurd (ground arith)
        | inr (item, found) ↦
            elim (Option-cases (find ℤ-discrete (height ctx p +ℤ pos 2) p.queue)) [
              | inl missing ↦ absurd (ground arith)
              | inr (other, found') ↦ ground arith
            ]
      ]

  -- The block that is processed is the next one.
  first_height :
      (start : ℤ) (p : P) (first second : QueueItem Block)
      → IsSynced start p
      → next_two ctx p ≡ some (first, second)
      → ctx.height_of first.block ≡ start +ℤ pos (suc p.blocks_synced)
  first_height start p first second i e =
      All-find ℤ-discrete (λ e. ctx.height_of e.1.block ≡ e.0) (height ctx p +ℤ pos 1) p.queue
        i.queued (next_two-first p first second e)
      ∙ next_height_lem start (height ctx p) p.blocks_synced i.at

  -- How a block is processed.
  pub process_cases :
      (first second : QueueItem Block) (p : P) {t : P} {o : Output State}
      → process ctx first second p ≡ ok (t, o)
      → (t ≡ purge_peer ctx second.peer (purge_peer ctx first.peer p))
        ⊎ ((s : State) × (ctx.apply_block p.state (ctx.block_id first.block) first.block ≡ some s)
            × (ctx.verify_commit p.state
                  (ctx.chain_id p.state)
                  (ctx.block_id first.block)
                  (ctx.height_of first.block)
                  (ctx.last_commit second.block)
                ≡ true)
            × (t ≡ record p {
              queue = remove ℤ-discrete (ctx.height_of first.block) p.queue;
              blocks_synced = p.blocks_synced + 1;
              state = s;
              saved = (first.block, ctx.last_commit second.block) ∷ p.saved;
            }))
  unfolding process
  process_cases first second p {t} e =
      elim (Bool-cases (
        ctx.verify_commit p.state (ctx.chain_id p.state) (ctx.block_id first.block)
          (ctx.height_of first.block) (ctx.last_commit second.block))) [
            | inr bad ↦ inl (ground arith)
            | inl good ↦
                elim (Option-cases
                  (ctx.apply_block p.state (ctx.block_id first.block) first.block)) [
                    | inl failed ↦ absurd (ground arith)
                    | inr (s, applied) ↦ inr (s, applied, good, ground arith)
                  ]
          ]

  pub process-IsSynced :
      (start : ℤ) (first second : QueueItem Block) (p : P) {t : P} {o : Output State}
      → IsSynced start p
      → next_two ctx p ≡ some (first, second)
      → process ctx first second p ≡ ok (t, o)
      → IsSynced start t
  process-IsSynced start first second p i two e = elim (process_cases first second p e) [
    | inl purged ↦ subst (IsSynced start) (sym purged) (
        purge_peer-IsSynced start second.peer (purge_peer ctx first.peer p)
          (purge_peer-IsSynced start first.peer p i))
    | inr (s, applied, good, done) ↦
        let first_at = first_height start p first second i two in
        subst (IsSynced start) (sym done) (record {
          queued =
              All-remove (λ e. ctx.height_of e.1.block ≡ e.0) (ctx.height_of first.block) p.queue
                i.queued;
          counted = omega (arith, i.counted);
          chained = (
            first_at ∙ ap (λ n. start +ℤ pos (suc n)) (sym i.counted),
            (p.state, good),
            i.chained,
          );
          at =
              ctx.apply_block-height p.state (ctx.block_id first.block) first.block applied
              ∙ first_at
              ∙ ap (λ n. start +ℤ pos n) (omega arith);
        })
  ]

  pub enqueue-IsSynced :
      (start : ℤ) (peer : Bytes) (block : Block) (p : P) {t : P}
      → IsSynced start p
      → enqueue ctx peer block (ctx.height_of block) p ≡ ok t
      → IsSynced start t
  unfolding enqueue
  enqueue-IsSynced start peer block p {t} i e =
      elim (Option-cases (find ℤ-discrete (ctx.height_of block) p.queue)) [
        | inr (item, found) ↦ absurd (ground arith)
        | inl missing ↦
            let item : QueueItem Block = record { block = block; peer = peer } in
            let done : record p { queue = store ℤ-discrete (ctx.height_of block) item p.queue }
                ≡ t =
              ground arith in
            subst (IsSynced start) done (record {
              queued =
                  All-store ℤ-discrete (λ e. ctx.height_of e.1.block ≡ e.0) (ctx.height_of block)
                    item p.queue refl i.queued;
              counted = i.counted;
              chained = i.chained;
              at = i.at;
            })
      ]
