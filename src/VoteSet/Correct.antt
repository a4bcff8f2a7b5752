-- ===== src/VoteSet/Correct.antt =====
-- `AddVote` and `SetPeerMaj23` on every branch.
use tendermintx.Common.{
  ℕ, ℤ, pos, negsuc, Bytes, Bool, true, false, Option, none, some, ◌≡◌, ◌⊎◌, inl, inr, refl, ap,
  ◌∙◌, arith, length, get_elem?, Run, ok, ◌==◌, Option-cases, Bool-cases, if◌then◌else◌,
}
use tendermintx.Types.Vote.{Vote, CanonicalVote, canonicalize_vote}
use tendermintx.VoteSet.Defs.{
  Validator, Crypto, VoteError, VoteSet, key, bytes_equal, verify, get_vote, add_verified_vote,
  added_result, add_new, get_by_index, add_vote, is_negative, same_step, vote_nil, unexpected_step,
  invalid_index, invalid_address, invalid_signature, non_deterministic_signature, conflicting_votes,
}
use tendermintx.VoteSet.Invariant.{Inv}
use tendermintx.VoteSet.Add.{Kept, same-Kept, get_vote_lem, add_verified_vote_lem}

-- The vote has sign bytes: its block ID converts and its canonical form is encoded.
abbrev pub Encodes : Crypto → Bytes → Vote → Type 0
Encodes crypto chain_id v =
    (c : CanonicalVote) × (b : Bytes) × (canonicalize_vote chain_id v ≡ some c)
    × (crypto.marshal_vote c ≡ some b)

module _ (crypto : Crypto) (s : VoteSet) (inv : Inv crypto s) where
  abbrev pub Returns : Run (VoteSet × Bool × Option VoteError) → Type 0
  Returns r =
      (t : VoteSet) × (added : Bool) × (err : Option VoteError) × (r ≡ ok (t, added, err))
      × Kept crypto s t

  verify_lem :
      (pk : Bytes) (v : Vote)
      → Encodes crypto s.chain_id v
      → (e : Option VoteError) × (verify crypto s.chain_id pk v ≡ ok e)
  unfolding verify
  verify_lem pk v (c, b, hc, hb) =
      elim (Bool-cases (bytes_equal (crypto.address_of pk) v.validator_address)) [
        | inl same ↦ (
          if crypto.verify_bytes pk b v.signature then none else some invalid_signature,
          ground arith,
        )
        | inr differ ↦ (some invalid_address, ground arith)
      ]

  module _ (i : ℕ) (val : Validator) (v : Vote) (known bad : Option Vote) where
    add_known :
        {w : Vote}
        → get_vote crypto i (key crypto v.block_id) s ≡ ok (some w)
        → add_new crypto i val v s
          ≡ ok (
            s,
            false,
            if bytes_equal w.signature v.signature then none else some non_deterministic_signature,
          )
    unfolding add_new
    add_known k = rw k (ground arith)

    add_unverified :
        {e : VoteError}
        → get_vote crypto i (key crypto v.block_id) s ≡ ok none
        → verify crypto s.chain_id val.pub_key v ≡ ok (some e)
        → add_new crypto i val v s ≡ ok (s, false, some e)
    unfolding add_new
    add_unverified k h = rw (k, h)

    add_verified :
        {t : VoteSet} {added : Bool} {conflicting : Option Vote}
        → get_vote crypto i (key crypto v.block_id) s ≡ ok none
        → verify crypto s.chain_id val.pub_key v ≡ ok none
        → add_verified_vote crypto i v (key crypto v.block_id) val.voting_power s
          ≡ ok (t, added, conflicting)
        → add_new crypto i val v s ≡ added_result crypto v (t, added, conflicting)
    unfolding add_new
    add_verified k h a = rw (k, h, a)

  added_result_lem :
      (v : Vote) (t : VoteSet) (added : Bool) (conflicting : Option Vote)
      → (conflicting ≡ none → added ≡ true)
      → (err : Option VoteError) × (added_result crypto v (t, added, conflicting)
          ≡ ok (t, added, err))
  unfolding added_result
  added_result_lem v t added (some w) h = (some (conflicting_votes w v), refl)
  added_result_lem v t true none h = (none, refl)
  added_result_lem v t false none h = absurd (ground (arith, h refl))

  add_new_lem :
      (i : ℕ) (val : Validator) (v : Vote)
      → get_elem? s.val_set.validators i ≡ some val
      → Encodes crypto s.chain_id v
      → Returns (add_new crypto i val v s)
  add_new_lem i val v member enc =
      let (known, k, new) = get_vote_lem crypto i v val s inv member (key crypto v.block_id) in
      elim (Option-cases known) [
        | inr (w, q) ↦
            (s, false, _, add_known i val v none none (k ∙ ap ok q), same-Kept crypto s inv)
        | inl q ↦
            let (bad, h) = verify_lem val.pub_key v enc in
            elim (Option-cases bad) [
              | inr (e, p) ↦ (
                s,
                false,
                some e,
                add_unverified i val v none none (k ∙ ap ok q) (h ∙ ap ok p),
                same-Kept crypto s inv,
              )
              | inl p ↦
                  let (t, added, conflicting, run, kept, done) =
                    add_verified_vote_lem crypto i v val s inv member (new q) in
                  let (err, res) = added_result_lem v t added conflicting done in
                  (
                    t,
                    added,
                    err,
                    add_verified i val v none none (k ∙ ap ok q) (h ∙ ap ok p) run ∙ res,
                    kept,
                  )
            ]
      ]

  get_by_index_member :
      (j : ℤ) {i : ℕ} {val : Validator}
      → get_by_index crypto j s.val_set ≡ some (i, val)
      → get_elem? s.val_set.validators i ≡ some val
  unfolding get_by_index
  get_by_index_member (negsuc n) e = absurd (cc)
  get_by_index_member (pos n) e = ground arith

  -- What the guards of `AddVote` decide.
  guarded :
      (v : Vote)
      → ((e : VoteError) × (add_vote crypto (some v) s ≡ ok (s, false, some e)))
        ⊎ ((i : ℕ) × (val : Validator) × (get_by_index crypto v.validator_index s.val_set
              ≡ some (i, val))
            × (add_vote crypto (some v) s ≡ add_new crypto i val v s))
  unfolding add_vote
  guarded v = elim (Bool-cases (is_negative crypto v.validator_index)) [
    | inl negative ↦ inl (invalid_index, rw negative)
    | inr fine ↦ elim (Bool-cases (length v.validator_address == 0)) [
      | inl empty ↦ inl (invalid_address, rw (fine, empty))
      | inr full ↦ elim (Bool-cases (same_step crypto v s)) [
        | inr other ↦ inl (unexpected_step, rw (fine, full, other))
        | inl same ↦ elim (Option-cases (get_by_index crypto v.validator_index s.val_set)) [
          | inl missing ↦ inl (invalid_index, rw (fine, full, same, missing))
          | inr ((i, val), found) ↦
              elim (Bool-cases (bytes_equal v.validator_address val.address)) [
                | inr differ ↦ inl (invalid_address, rw (fine, full, same, found, differ))
                | inl agree ↦ inr (i, val, found, rw (fine, full, same, found, agree))
              ]
        ]
      ]
    ]
  ]

  -- Adding a vote that can be encoded, or no vote, returns without a panic. The invariant holds
  -- afterwards, the validator set is the same, and a majority that was found is not replaced.
  pub add_vote_correct :
      (o : Option Vote)
      → ((v : Vote) → o ≡ some v → Encodes crypto s.chain_id v)
      → (t : VoteSet) × (added : Bool) × (err : Option VoteError) × (add_vote crypto o s
          ≡ ok (t, added, err))
        × Kept crypto s t
  add_vote_correct none enc =
      (s, false, some vote_nil, unfold add_vote in refl, same-Kept crypto s inv)
  add_vote_correct (some v) enc = elim (guarded v) [
    | inl (e, run) ↦ (s, false, some e, run, same-Kept crypto s inv)
    | inr (i, val, found, run) ↦
        let (t, added, err, res, kept) =
          add_new_lem i val v (get_by_index_member v.validator_index found) (enc v refl) in
        (t, added, err, run ∙ res, kept)
  ]
