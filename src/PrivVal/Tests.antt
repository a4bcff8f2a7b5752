-- ===== src/PrivVal/Tests.antt =====
-- A validator that votes, restarts and is asked again, with a toy encoding.
use tendermintx.Common.{
  ap, ℕ, ℤ, pos, Bytes, Bytes-discrete, true, Option, none, some, List, [], ◌∷◌, ◌≡◌, refl, inl,
  arith, if◌then◌else◌, holds, ap, ◌⊎◌,
}
use tendermintx.Types.BlockId.{BlockId}
use tendermintx.Types.Vote.{
  Vote, CanonicalVote, CanonicalProposal, prevote, CanonicalVote-discrete, canonicalize_block_id,
  canonicalize_vote,
}
use tendermintx.PrivVal.Codec.{Wire}
use tendermintx.PrivVal.Checks.{
  returns, fails, height_regression, round_regression, step_regression, conflicting_data,
  vote_to_step, check_hrs, to_file, step_prevote,
}
use tendermintx.PrivVal.Sign.{
  Env, FilePv, gen_file_pv, load_file_pv, sign_vote, sign_canonical, sign_new, save_signed, resign,
  only_differ_by_timestamp,
}
use tendermintx.PrivVal.Cases.{signed}
use tendermintx.PrivVal.Log.{
  Released, Event, vote_request, restart, run, step, after_vote, vote_sign_bytes,
}
use tendermintx.PrivVal.DoubleSign.{no_double_sign}
use tendermintx.PrivVal.Safety.{SameMessage}
use tendermintx.PrivVal.Progress.{
  sign_vote-later, sign_vote-earlier, sign_vote-again, sign_vote-conflict,
}

abbrev nil_block : BlockId
nil_block = record { hash = []; parts = record { total = 0; hash = [] } }

abbrev vote_at : ℕ → ℕ → Vote
vote_at height time = record {
  kind = prevote;
  height = pos height;
  round = pos 0;
  block_id = nil_block;
  timestamp = pos time;
  validator_address = 1 ∷ [];
  validator_index = pos 0;
  signature = [];
}

abbrev canonical_at : Bytes → ℕ → ℕ → CanonicalVote
canonical_at chain_id height time = record {
  kind = prevote;
  height = pos height;
  round = pos 0;
  block_id = none;
  timestamp = pos time;
  chain_id = chain_id;
}

-- Encodes prevotes for the nil block in round 0, and nothing else.
toy_shape : CanonicalVote → ℤ → ℤ → Option Bytes
toy_shape c (pos h) (pos t) =
    if holds (CanonicalVote-discrete c (canonical_at c.chain_id h t))
    then some (h ∷ t ∷ c.chain_id)
    else none
toy_shape c _ _ = none

toy_unmarshal : Bytes → Option CanonicalVote
toy_unmarshal (h ∷ t ∷ chain_id) = some (canonical_at chain_id h t)
toy_unmarshal _ = none

toy_shape_round_trip :
    (c : CanonicalVote) (h t : ℤ) {b : Bytes} → toy_shape c h t ≡ some b → toy_unmarshal b ≡ some c
unfolding toy_unmarshal toy_shape
toy_shape_round_trip c (pos h) (pos t) e = ground arith
toy_shape_round_trip c _ _ e = absurd (cc)

toy_wire : Wire CanonicalVote
toy_wire = record {
  marshal = λ c. toy_shape c c.height c.timestamp;
  unmarshal = toy_unmarshal;
  round_trip = λ c. toy_shape_round_trip c c.height c.timestamp;
}

mute_wire : Wire CanonicalProposal
mute_wire = record { marshal = λ c. none; unmarshal = λ b. none; round_trip = λ c h. absurd (cc) }

-- The toy key signs with one byte.
abbrev env : ℕ → Env
env now = record { sign = λ b. some (7 ∷ b); write_ok = true; now = pos now }

abbrev start : FilePv
start = record {
  last_sign_state = record {
    height = pos 0;
    round = pos 0;
    step = 0;
    signature = none;
    sign_bytes = none;
  };
  file_path = 1 ∷ [];
  disk = record { height = pos 0; round = pos 0; step = 0; signature = none; sign_bytes = none };
}

abbrev after : FilePv
after = signed (pos 5) (pos 0) step_prevote (5 ∷ 40 ∷ []) (7 ∷ 5 ∷ 40 ∷ []) start

start_lem : gen_file_pv (1 ∷ []) ≡ start
unfolding gen_file_pv
start_lem = refl

canonical_lem :
    (chain_id : Bytes) (h t : ℕ)
    → canonicalize_vote chain_id (vote_at h t) ≡ some (canonical_at chain_id h t)
unfolding canonicalize_vote canonicalize_block_id
canonical_lem chain_id h t = refl

encoded_lem :
    (chain_id : Bytes) (h t : ℕ)
    → toy_wire.marshal (canonical_at chain_id h t) ≡ some (h ∷ t ∷ chain_id)
unfolding toy_wire toy_shape
encoded_lem chain_id h t = ground arith

sign_vote-later_example :
    sign_vote toy_wire (env 50) [] (vote_at 5 40) start
    ≡ returns (after, record (vote_at 5 40) { signature = 7 ∷ 5 ∷ 40 ∷ [] })
sign_vote-later_example =
    sign_vote-later toy_wire (env 50) [] (vote_at 5 40) start (inl refl) (inl (omega arith))
      (canonical_lem [] 5 40) (encoded_lem [] 5 40) refl refl (λ e. cc)

sign_vote-earlier_example :
    (sign_vote toy_wire (env 50) [] (vote_at 4 40) after ≡ fails height_regression)
    ⊎ (sign_vote toy_wire (env 50) [] (vote_at 4 40) after ≡ fails round_regression)
    ⊎ (sign_vote toy_wire (env 50) [] (vote_at 4 40) after ≡ fails step_regression)
unfolding signed
sign_vote-earlier_example =
    sign_vote-earlier toy_wire (env 50) [] (vote_at 4 40) after (inl refl) (inl (omega arith))

sign_vote-again_example :
    sign_vote toy_wire (env 60) [] (vote_at 5 50) (load_file_pv after)
    ≡ returns (load_file_pv after, record (vote_at 5 40) { signature = 7 ∷ 5 ∷ 40 ∷ [] })
unfolding signed load_file_pv to_file
sign_vote-again_example =
    sign_vote-again toy_wire (env 60) [] (vote_at 5 50) (load_file_pv after)
      {old = canonical_at [] 5 40} (inl refl) (refl, refl, refl) refl refl (encoded_lem [] 5 40)
      (canonical_lem [] 5 50) (encoded_lem [] 5 50) refl

sign_vote-conflict_example :
    sign_vote toy_wire (env 60) (9 ∷ []) (vote_at 5 50) (load_file_pv after)
    ≡ fails conflicting_data
unfolding signed load_file_pv to_file
sign_vote-conflict_example =
    sign_vote-conflict toy_wire (env 60) (9 ∷ []) (vote_at 5 50) (load_file_pv after)
      {old = canonical_at [] 5 40} (inl refl) (refl, refl, refl) refl refl (encoded_lem [] 5 40)
      (canonical_lem (9 ∷ []) 5 50) (encoded_lem (9 ∷ []) 5 50)
      (λ e. let other_chain : ◌≡◌ {A = Bytes} (9 ∷ []) [] = ap (λ c. c.chain_id) e in cc)

abbrev life : List Event
life =
    vote_request (env 50) [] (vote_at 5 40) ∷ restart ∷ vote_request (env 60) [] (vote_at 5 50) ∷ []

abbrev entry : Released
entry = record {
  height = pos 5;
  round = pos 0;
  step = step_prevote;
  sign_bytes = some (5 ∷ 40 ∷ []);
  signature = 7 ∷ 5 ∷ 40 ∷ [];
}

life_log : (run toy_wire mute_wire (gen_file_pv (1 ∷ []), []) life).1 ≡ entry ∷ entry ∷ []
unfolding run step after_vote sign_vote sign_canonical sign_new resign canonicalize_vote
    vote_sign_bytes toy_wire toy_shape CanonicalVote-discrete gen_file_pv save_signed
    canonicalize_block_id vote_to_step check_hrs load_file_pv Bytes-discrete
    only_differ_by_timestamp toy_unmarshal
life_log = refl

no_double_sign_example : SameMessage entry entry
no_double_sign_example =
    no_double_sign toy_wire mute_wire (1 ∷ []) life 0 1 {a = entry} {b = entry} (rw life_log)
      (rw life_log) (refl, refl, refl)
