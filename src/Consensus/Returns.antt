-- ===== src/Consensus/Returns.antt =====
-- That `enterPrecommit` does not panic.
use tendermintx.Common.{
  ℕ, ℤ, pos, ltb_ℤ, ◌≤◌, ltb, true, false, Option, none, some, length, ◌==◌, ◌≡◌, inl, inr, refl,
  arith, find, ℤ-discrete, Option-cases, Bool-cases, ok,
}
use tendermintx.Types.BlockId.{BlockId}
use tendermintx.Types.Vote.{prevote, precommit}
use tendermintx.VoteSet.Defs.{VoteSet, two_thirds_majority}
use tendermintx.HeightVoteSet.Defs.{HeightVoteSet, get_vote_set, pol_info, prevote_majority}
use tendermintx.HeightVoteSet.Pol.{pol_info-none, pol_info-above}
use tendermintx.HeightVoteSet.Stays.{Polka}
use tendermintx.Consensus.State.{Env, precommitted, late, update_round_step, majority, hashes_to}
use tendermintx.Consensus.Sign.{S, sign_add_vote}
use tendermintx.Consensus.Enter.{
  pol_round, precommit_majority, precommit_for, enter_precommit, lock, unlock, fetch, release,
  precommit_nil,
}
use tendermintx.Consensus.Rules.{core, Moves}
use tendermintx.Consensus.Refine.Precommit.{majority-Polka, hashes_to-some, enter_precommit-Follows}

-- The vote set of prevotes is found, or there is none.
pub prevotes_found :
    (r : ℤ) (h : HeightVoteSet) → (v : Option VoteSet) × (get_vote_set r prevote h ≡ ok v)
unfolding get_vote_set
prevotes_found r h = elim (Option-cases (find ℤ-discrete r h.round_vote_sets)) [
  | inl missing ↦ (none, rw (get_vote_set, missing) refl)
  | inr (x, found) ↦ (some x.prevotes, rw (get_vote_set, found) refl)
]

Polka-majority :
    (k : ℕ) (h : HeightVoteSet) (b : BlockId) → Polka (pos k) b h → prevote_majority k h ≡ some b
unfolding prevote_majority two_thirds_majority
Polka-majority k h b (x, found, m) = rw (prevote_majority, found) m

module _ {Block Chain Vals Signer : Type 0} (env : Env Block Chain Vals Signer) where
  -- The round of `POLInfo` is not below one with a majority of prevotes.
  pol_round-reaches :
      (k n : ℕ) (b : BlockId) (s : S env)
      → s.votes.round ≡ pos n
      → k ≤ n
      → Polka (pos k) b s.votes
      → ltb_ℤ (pol_round env s) (pos k) ≡ false
  pol_round-reaches k n b s at low polka =
      let here = Polka-majority k s.votes b polka in
      elim (Option-cases (pol_info s.votes)) [
        | inl missing ↦ absurd (let above = pol_info-none s.votes n at missing k low in cc)
        | inr ((r, c), found) ↦ elim (Bool-cases (ltb r k)) [
          | inr reached ↦ rw (pol_round, found) (ground (arith, reached))
          | inl below ↦
              absurd
                (let above = pol_info-above s.votes n at found k (ground (arith, below)) low in cc)
        ]
      ]

  -- The executor accepts the proposal block, if the round's prevotes have a majority for it.
  abbrev pub Acceptable : ℤ → S env → Type 0
  Acceptable r s =
      (b : Block) (id : BlockId)
      → s.proposal_block ≡ some b
      → Polka r id s.votes
      → env.block_hash b ≡ id.hash
      → env.validate_block s.chain b ≡ true

  precommit_majority-returns :
      (k n : ℕ) (b : BlockId) (s : S env)
      → s.votes.round ≡ pos n
      → k ≤ n
      → Polka (pos k) b s.votes
      → Acceptable (pos k) s
      → (t : S env) × (precommit_majority env (pos k) b s ≡ ok t)
  unfolding precommit_majority
  precommit_majority-returns k n b s at low polka fine =
      let reached = pol_round-reaches k n b s at low polka in
      elim (Bool-cases (length b.hash == 0)) [
        | inl e1 ↦ (precommit_nil env (release env s.locked_block s), ground (arith, reached, e1))
        | inr e1 ↦ elim (Bool-cases (hashes_to env s.locked_block b.hash)) [
          | inl e2 ↦ (
            sign_add_vote env precommit b.hash b.parts (record s { locked_round = pos k }),
            ground (arith, reached, e1, e2),
          )
          | inr e2 ↦ elim (Bool-cases (hashes_to env s.proposal_block b.hash)) [
            | inr e3 ↦ (
              precommit_nil env (fetch env b (unlock env s)),
              ground (arith, reached, e1, e2, e3),
            )
            | inl e3 ↦
                let (block, found, same) = hashes_to-some env s.proposal_block b.hash e3 in
                let valid = fine block b found polka same in
                (
                  sign_add_vote env precommit b.hash b.parts (lock env (pos k) s),
                  ground (arith, reached, e1, e2, e3, found, valid),
                )
          ]
        ]
      ]

  precommit_for-returns :
      (k n : ℕ) (o : Option BlockId) (s : S env)
      → s.votes.round ≡ pos n
      → k ≤ n
      → ((b : BlockId) → o ≡ some b → Polka (pos k) b s.votes)
      → Acceptable (pos k) s
      → (t : S env) × (precommit_for env (pos k) o s ≡ ok t)
  precommit_for-returns k n none s at low polka fine = (_, refl)
  precommit_for-returns k n (some b) s at low polka fine =
      precommit_majority-returns k n b s at low (polka b refl) fine

  enter_precommit-some :
      (h : ℤ) (k n : ℕ) (s : S env)
      → s.votes.round ≡ pos n
      → k ≤ n
      → Acceptable (pos k) s
      → (t : S env) × (enter_precommit env h (pos k) s ≡ ok t)
  unfolding enter_precommit
  enter_precommit-some h k n s at low fine = elim (Bool-cases (late h (pos k) precommitted s)) [
    | inl early ↦ (s, ground (arith, early))
    | inr due ↦
        let (v, found) = prevotes_found (pos k) s.votes in
        let (t, run) =
          precommit_for-returns k n (majority v) s at low
            (λ b. majority-Polka (pos k) s.votes v b found) fine in
        (update_round_step (pos k) precommitted t, ground (arith, due, found, run))
  ]

  -- Entering the precommit of a round up to that of the votes returns without a panic, if the
  -- executor accepts a proposal block for which the round's prevotes have a majority; the state has
  -- moved by the rules.
  pub enter_precommit_returns :
      (h : ℤ) (k n : ℕ) (s : S env)
      → s.votes.round ≡ pos n
      → k ≤ n
      → Acceptable (pos k) s
      → (t : S env) × (enter_precommit env h (pos k) s ≡ ok t) × Moves env (core env s) (core env t)
  enter_precommit_returns h k n s at low fine =
      let (t, run) = enter_precommit-some h k n s at low fine in
      (t, run, ((enter_precommit-Follows env h (pos k) s).at t run).moves)
