-- ===== src/FastSync/Run.antt =====
-- Whole runs of the processor.
use tendermintx.Common.{
  ℤ, pos, ◌+ℤ◌, ltb_ℤ, Bytes, true, none, some, List, [], ◌∷◌, ◌≡◌, ◌⊎◌, inl, inr, refl, sym, subst,
  arith, length, All, Option-cases, Bool-cases, ok, ◌>>=◌, >>=-eq-ok,
}
use tendermintx.FastSync.Processor.{
  Context, Event, reset_state, scheduler_finished, peer_error, block_received, process_block,
  other_event, Output, no_op, PcState, height, new_pc_state, next_two, synced, enqueue, purge_peer,
  handle, run,
}
use tendermintx.FastSync.Synced.{
  IsSynced, IsNoReset, Chain, purge_peer-IsSynced, process-IsSynced, enqueue-IsSynced,
}

module _ {Block Commit State : Type 0} (ctx : Context Block Commit State) where
  abbrev P : Type 0
  P = PcState Block Commit State

  same_or_drained :
      (start : ℤ) (p t : P)
      → IsSynced ctx start p
      → (t ≡ p) ⊎ (t ≡ record p { draining = true })
      → IsSynced ctx start t
  same_or_drained start p t i (inl e) = subst (IsSynced ctx start) (sym e) i
  same_or_drained start p t i (inr e) =
      subst (IsSynced ctx start) (sym e)
        (record { queued = i.queued; counted = i.counted; chained = i.chained; at = i.at })

  received-IsSynced :
      (start : ℤ) (peer : Bytes) (block : Block) (p : P) {t : P} {o : Output State}
      → IsSynced ctx start p
      → handle ctx (block_received peer (some block)) p ≡ ok (t, o)
      → IsSynced ctx start t
  unfolding handle
  received-IsSynced start peer block p {t} i e =
      elim (Bool-cases (ltb_ℤ (height ctx p) (ctx.height_of block))) [
        | inr old ↦ same_or_drained start p t i (inl (ground arith))
        | inl new ↦
            let step : (enqueue ctx peer block (ctx.height_of block) p >>= λ q. ok (q, no_op))
                ≡ ok (t, _) =
              rw new at e in
            let (q, queued, rest) =
              >>=-eq-ok (enqueue ctx peer block (ctx.height_of block) p) _ step in
            let same : q ≡ t = cc in
            subst (IsSynced ctx start) same (enqueue-IsSynced ctx start peer block p i queued)
      ]

  process_block-IsSynced :
      (start : ℤ) (p : P) {t : P} {o : Output State}
      → IsSynced ctx start p
      → handle ctx process_block p ≡ ok (t, o)
      → IsSynced ctx start t
  unfolding handle
  process_block-IsSynced start p {t} i e = elim (Option-cases (next_two ctx p)) [
    | inr ((first, second), two) ↦
        process-IsSynced ctx start first second p i two (rw (handle, two) at e)
    | inl missing ↦ elim (Bool-cases p.draining) [
      | inl q ↦ same_or_drained start p t i (inl (ground arith))
      | inr q ↦ same_or_drained start p t i (inl (ground arith))
    ]
  ]

  handle-IsSynced :
      (start : ℤ) (e : Event Block State) (p : P) {t : P} {o : Output State}
      → IsNoReset ctx e
      → IsSynced ctx start p
      → handle ctx e p ≡ ok (t, o)
      → IsSynced ctx start t
  unfolding handle
  handle-IsSynced start (reset_state s) p allowed i h = absurd allowed
  handle-IsSynced start scheduler_finished p {t} allowed i h = elim (Bool-cases (synced ctx p)) [
    | inl q ↦ same_or_drained start p t i (inl (ground arith))
    | inr q ↦ same_or_drained start p t i (inr (ground arith))
  ]
  handle-IsSynced start (peer_error peer) p {t} allowed i h =
      let done : purge_peer ctx peer p ≡ t = cc in
      subst (IsSynced ctx start) done (purge_peer-IsSynced ctx start peer p i)
  handle-IsSynced start (block_received peer none) p {t} allowed i h =
      same_or_drained start p t i (inl (ground arith))
  handle-IsSynced start (block_received peer (some b)) p allowed i h =
      received-IsSynced start peer b p i h
  handle-IsSynced start process_block p allowed i h = process_block-IsSynced start p i h
  handle-IsSynced start other_event p {t} allowed i h =
      same_or_drained start p t i (inl (ground arith))

  run-IsSynced_from :
      (start : ℤ) (es : List (Event Block State)) (p : P) {t : P}
      → All (IsNoReset ctx) es
      → IsSynced ctx start p
      → run ctx es p ≡ ok t
      → IsSynced ctx start t
  unfolding run
  run-IsSynced_from start [] p allowed i h =
      let same : p ≡ _ = cc in subst (IsSynced ctx start) same i
  run-IsSynced_from start (e ∷ es) p allowed i h =
      let ((q, o), first, rest) = >>=-eq-ok (handle ctx e p) _ h in
      run-IsSynced_from start es q allowed.1 (handle-IsSynced start e p allowed.0 i first) rest

  start_lem : (h : ℤ) → h ≡ h +ℤ pos 0
  unfolding ◌+ℤ◌
  start_lem h = ground arith

  new-IsSynced : (s : State) → IsSynced ctx (ctx.last_block_height s) (new_pc_state ctx s)
  unfolding new_pc_state
  new-IsSynced s = record {
    queued = tt;
    counted = refl;
    chained = tt;
    at = start_lem (ctx.last_block_height s);
  }

  -- After any events but resets of the state, in any order, from a new processor: if no panic ended
  -- it, the blocks that were saved are those of the heights after the first state, without a gap and
  -- each verified by a commit, the state has the last of them applied, and their number is the one
  -- that is reported.
  pub run-IsSynced :
      (s : State) (es : List (Event Block State)) {t : P}
      → All (IsNoReset ctx) es
      → run ctx es (new_pc_state ctx s) ≡ ok t
      → (Chain ctx (ctx.last_block_height s) t.saved)
        × (length t.saved ≡ t.blocks_synced)
        × (height ctx t ≡ ctx.last_block_height s +ℤ pos t.blocks_synced)
  run-IsSynced s es allowed h =
      let i =
        run-IsSynced_from (ctx.last_block_height s) es (new_pc_state ctx s) allowed (new-IsSynced s)
          h in
      (i.chained, i.counted, i.at)
