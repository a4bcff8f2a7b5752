-- ===== src/Consensus/Invariants.antt =====
-- What the rules keep, and hence the code.
use tendermintx.Common.{
  ℤ, pos, negsuc, ◌<ℤ◌, ◌≤◌, Bytes, false, Option, none, some, List, [], ◌∷◌, ◌≡◌, ◌≢◌, ◌⊎◌, inl,
  inr, refl, sym, subst, ◌∙◌, arith, All, All-append, ok,
}
use tendermintx.Types.BlockId.{BlockId}
use tendermintx.Types.Vote.{precommit}
use tendermintx.VoteSet.Defs.{Crypto, VoteSet}
use tendermintx.HeightVoteSet.Stays.{Polka, Grows, Typed, reset-Typed, precommits-Typed}
use tendermintx.HeightVoteSet.Defs.{HeightVoteSet}
use tendermintx.PartSet.{PartSet}
use tendermintx.Merkle.Tree.{Hash}
use tendermintx.Consensus.State.{
  Env, RoundStep, prevoted, precommitted, step_number, compare_hrs, majority,
}
use tendermintx.Consensus.Sign.{S}
use tendermintx.Consensus.Events.{Event, receive}
use tendermintx.Consensus.Rules.{
  Core, core, Later, Certified, Choice, no_majority, unlocked, release, relock, lock, Move, advance,
  enter_prevote, enter_precommit, unlock, revalue, count, save, next_height, Moves, done, then_by,
}
use tendermintx.Consensus.Refine.Events.{receive_refines}

module _ {Block Chain Vals Signer : Type 0} (env : Env Block Chain Vals Signer) where
  abbrev C : Type 0
  C = Core Block Chain

  -- A block that a node holds to is one that had a majority of prevotes in the round that goes with
  -- it; without a block the round is -1.
  abbrev pub Backed : HeightVoteSet → ℤ → Option Block → Type 0
  Backed votes r none = r ≡ negsuc 0
  Backed votes r (some b) = (id : BlockId) × Polka r id votes × (env.block_hash b ≡ id.hash)

  pub record Justified (c : C) : Type 0 where
    pub lock_backed : Backed c.votes c.locked_round c.locked_block
    pub valid_backed : Backed c.votes c.valid_round c.valid_block

  Backed-Grows :
      (h t : HeightVoteSet) (r : ℤ) (o : Option Block) → Grows h t → Backed h r o → Backed t r o
  Backed-Grows h t r none g p = p
  Backed-Grows h t r (some b) g (id, polka, same) = (id, g.keep r id polka, same)

  Choice-Backed :
      (c : C) (r locked_round : ℤ) (locked_block : Option Block) (hash : Bytes)
      → Choice env c r locked_round locked_block hash
      → Backed c.votes c.locked_round c.locked_block
      → Backed c.votes locked_round locked_block
  Choice-Backed c r locked_round locked_block hash (no_majority missing) h = h
  Choice-Backed c r locked_round locked_block hash (unlocked id polka empty free) h = h
  Choice-Backed c r locked_round locked_block hash (release id polka other) h = refl
  Choice-Backed c r locked_round locked_block hash (relock id b polka locked (same, full)) h =
      subst (Backed c.votes r) (sym locked) (id, polka, same)
  Choice-Backed c r locked_round locked_block hash (lock id b polka (same, full) valid) h =
      (id, polka, same)

  Move-Justified : {c d : C} → Move env c d → Justified c → Justified d
  Move-Justified (advance c r st later other different) j = record {
    lock_backed = j.lock_backed;
    valid_backed = j.valid_backed;
  }
  Move-Justified (enter_prevote c r sent later casts) j = record {
    lock_backed = j.lock_backed;
    valid_backed = j.valid_backed;
  }
  Move-Justified (enter_precommit c r locked_round locked_block hash sent later choice casts) j =
      record {
        lock_backed = Choice-Backed c r locked_round locked_block hash choice j.lock_backed;
        valid_backed = j.valid_backed;
      }
  Move-Justified (unlock c r id b polka locked other later past) j = record {
    lock_backed = refl;
    valid_backed = j.valid_backed;
  }
  Move-Justified (revalue c id b polka same later) j = record {
    lock_backed = j.lock_backed;
    valid_backed = (id, polka, same);
  }
  Move-Justified (count c votes g) j = record {
    lock_backed = Backed-Grows c.votes votes c.locked_round c.locked_block g j.lock_backed;
    valid_backed = Backed-Grows c.votes votes c.valid_round c.valid_block g j.valid_backed;
  }
  Move-Justified (save c b parts v certified) j = record {
    lock_backed = j.lock_backed;
    valid_backed = j.valid_backed;
  }
  Move-Justified (next_height c b v id chain votes certified applied later fresh) j = record {
    lock_backed = refl;
    valid_backed = refl;
  }

  Moves-Justified : {c d : C} → Moves env c d → Justified c → Justified d
  Moves-Justified (done c) j = j
  Moves-Justified (then_by p m) j = Move-Justified m (Moves-Justified p j)

  -- The height, the round and the step do not go back.
  abbrev pub NotBefore : C → C → Type 0
  NotBefore c d =
      (c.height <ℤ d.height)
      ⊎ ((c.height ≡ d.height)
          × ((c.round <ℤ d.round)
              ⊎ ((c.round ≡ d.round) × (step_number c.step ≤ step_number d.step))))

  <ℤ-trans : (a b c : ℤ) → a <ℤ b → b <ℤ c → a <ℤ c
  <ℤ-trans a b c p q = omega (arith, p, q)

  Later-NotBefore :
      {h : ℤ} (r : ℤ) (st : RoundStep) (r' : ℤ) (st' : RoundStep)
      → Later env r st r' st'
      → (h <ℤ h) ⊎ ((h ≡ h) × ((r <ℤ r') ⊎ ((r ≡ r') × (step_number st ≤ step_number st'))))
  Later-NotBefore r st r' st' (inl later) = inr (refl, inl later)
  Later-NotBefore r st r' st' (inr (same, later)) = inr (refl, inr (same, omega (arith, later)))

  NotBefore-refl : (c : C) → NotBefore c c
  NotBefore-refl c = inr (refl, inr (refl, omega arith))

  NotBefore-trans : (c d e : C) → NotBefore c d → NotBefore d e → NotBefore c e
  NotBefore-trans c d e (inl p) (inl q) = inl (<ℤ-trans c.height d.height e.height p q)
  NotBefore-trans c d e (inl p) (inr (h, _)) = inl (subst (λ x. c.height <ℤ x) h p)
  NotBefore-trans c d e (inr (h, _)) (inl q) = inl (subst (λ x. x <ℤ e.height) (sym h) q)
  NotBefore-trans c d e (inr (h, inl p)) (inr (k, inl q)) =
      inr (h ∙ k, inl (<ℤ-trans c.round d.round e.round p q))
  NotBefore-trans c d e (inr (h, inl p)) (inr (k, inr (r, _))) =
      inr (h ∙ k, inl (subst (λ x. c.round <ℤ x) r p))
  NotBefore-trans c d e (inr (h, inr (r, _))) (inr (k, inl q)) =
      inr (h ∙ k, inl (subst (λ x. x <ℤ e.round) (sym r) q))
  NotBefore-trans c d e (inr (h, inr (r, p))) (inr (k, inr (r', q))) =
      inr (h ∙ k, inr (r ∙ r', omega (arith, p, q)))

  module _ (running : (chain : Chain) → env.is_empty chain ≡ false) where
    Move-NotBefore : {c d : C} → Move env c d → NotBefore c d
    Move-NotBefore (advance c r st later other different) =
        Later-NotBefore c.round c.step r st later
    Move-NotBefore (enter_prevote c r sent later casts) =
        Later-NotBefore c.round c.step r prevoted later
    Move-NotBefore (enter_precommit c r locked_round locked_block hash sent later choice casts) =
        Later-NotBefore c.round c.step r precommitted later
    Move-NotBefore (unlock c r id b polka locked other later past) =
        inr (refl, inr (refl, omega arith))
    Move-NotBefore (revalue c id b polka same later) = inr (refl, inr (refl, omega arith))
    Move-NotBefore (count c votes g) = inr (refl, inr (refl, omega arith))
    Move-NotBefore (save c b parts v certified) = inr (refl, inr (refl, omega arith))
    Move-NotBefore (next_height c b v id chain votes certified applied (inl empty) fresh) =
        absurd (let e = running c.chain in cc)
    Move-NotBefore (next_height c b v id chain votes certified applied (inr later) fresh) =
        inl later

    Moves-NotBefore : {c d : C} → Moves env c d → NotBefore c d
    Moves-NotBefore (done c) = NotBefore-refl c
    Moves-NotBefore {c} {d} (then_by {d = m} p move) =
        NotBefore-trans c m d (Moves-NotBefore p) (Move-NotBefore move)

  -- `CompareHRS` tells as much.
  compare_hrs-NotBefore :
      (c d : C)
      → NotBefore c d
      → compare_hrs c.height c.round c.step d.height d.round d.step ≢ pos 1
  unfolding compare_hrs
  compare_hrs-NotBefore c d (inl p) e = ground (arith, p, e)
  compare_hrs-NotBefore c d (inr (h, inl p)) e = ground (arith, h, p, e)
  compare_hrs-NotBefore c d (inr (h, inr (r, p))) e = ground (arith, h, r, p, e)

  -- A saved block with a set of precommits that has a majority for the block's hash.
  abbrev pub Decided : Block × Option PartSet × Option VoteSet → Type 0
  Decided (b, parts, v) =
      (s : VoteSet) × (id : BlockId) × (v ≡ some s)
      × (s.signed_msg_type ≡ precommit)
      × (majority v ≡ some id)
      × (env.block_hash b ≡ id.hash)

  pub record Recorded (c : C) : Type 0 where
    pub typed : Typed c.votes
    pub decided : All Decided c.saved

  Certified-Decided :
      (c : C) (b : Block) (parts : Option PartSet) (v : Option VoteSet)
      → Certified env c b v
      → Typed c.votes
      → Decided (b, parts, v)
  Certified-Decided c b parts none certified typed = absurd (let e = certified.decided in cc)
  Certified-Decided c b parts (some s) certified typed = (
    s,
    certified.id,
    refl,
    precommits-Typed certified.at_round c.votes s typed certified.votes_there,
    certified.decided,
    certified.same_hash,
  )

  Move-Recorded : {c d : C} → Move env c d → Recorded c → Recorded d
  Move-Recorded (save c b parts v certified) i = record {
    typed = i.typed;
    decided =
        All-append Decided c.saved ((b, parts, v) ∷ []) i.decided
          (Certified-Decided c b parts v certified i.typed, tt);
  }
  Move-Recorded (count c votes g) i = record { typed = g.types i.typed; decided = i.decided }
  Move-Recorded (next_height c b v id chain votes certified applied later fresh) i = record {
    typed = reset-Typed (env.chain_id chain) _ _ votes fresh;
    decided = i.decided;
  }
  Move-Recorded (advance c r st later other different) i = record {
    typed = i.typed;
    decided = i.decided;
  }
  Move-Recorded (enter_prevote c r sent later casts) i = record {
    typed = i.typed;
    decided = i.decided;
  }
  Move-Recorded (enter_precommit c r locked_round locked_block hash sent later choice casts) i =
      record { typed = i.typed; decided = i.decided }
  Move-Recorded (unlock c r id b polka locked other later past) i = record {
    typed = i.typed;
    decided = i.decided;
  }
  Move-Recorded (revalue c id b polka same later) i = record {
    typed = i.typed;
    decided = i.decided;
  }

  Moves-Recorded : {c d : C} → Moves env c d → Recorded c → Recorded d
  Moves-Recorded (done c) i = i
  Moves-Recorded (then_by p m) i = Move-Recorded m (Moves-Recorded p i)

  module _ (crypto : Crypto) (hash : Hash) (events : List (ℤ × Event)) (s t : S env) where
    -- Whatever is handled, if no panic ended it: a lock is on a block that had a majority of
    -- prevotes in the locked round, and the valid block had one in the valid round, if that was so
    -- before.
    pub receive-Justified :
        receive env crypto hash events s ≡ ok t → Justified (core env s) → Justified (core env t)
    receive-Justified e j = Moves-Justified (receive_refines env crypto hash events s t e) j

    -- Whatever is handled, if no panic ended it and no chain state is empty: the height, the round
    -- and the step have not gone back, by the comparison of `CompareHRS`.
    pub receive_monotone :
        ((chain : Chain) → env.is_empty chain ≡ false)
        → receive env crypto hash events s ≡ ok t
        → compare_hrs s.height s.round s.step t.height t.round t.step ≢ pos 1
    receive_monotone running e =
        compare_hrs-NotBefore (core env s) (core env t)
          (Moves-NotBefore running (receive_refines env crypto hash events s t e))

    -- Whatever is handled, if no panic ended it: every saved block has a vote set of precommits
    -- with a majority for its hash, and the vote sets of the height are for prevotes and for
    -- precommits, if all that was so before.
    pub receive-saved :
        receive env crypto hash events s ≡ ok t
        → Recorded (core env s)
        → Typed t.votes × All Decided t.saved
    receive-saved e i =
        let after = Moves-Recorded (receive_refines env crypto hash events s t e) i in
        (after.typed, after.decided)
