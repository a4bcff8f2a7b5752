-- ===== src/PrivVal/Codec.antt =====
-- What the signer uses of the protobuf library, and the timestamps of canonical messages.
use tendermintx.Common.{ℤ, Bytes, ◌≡◌, refl, Option, some}
use tendermintx.Types.Vote.{
  CanonicalVote, CanonicalProposal, CanonicalVote-discrete, CanonicalProposal-discrete,
}

-- `protoio.MarshalDelimited` and `UnmarshalDelimited` at one message type: what was encoded is
-- decoded to the same message.
pub record Wire (C : Type 0) : Type 0 where
  pub marshal : C → Option Bytes
  pub unmarshal : Bytes → Option C
  pub round_trip : (c : C) {b : Bytes} → marshal c ≡ some b → unmarshal b ≡ some c

-- A canonical message has a timestamp that can be read and replaced, and `proto.Equal` decides
-- equality of two of them.
pub record Timed (C : Type 0) : Type 0 where
  pub time_of : C → ℤ
  pub with_time : ℤ → C → C
  pub equal : Discrete C
  pub with_time-with_time : (t u : ℤ) (c : C) → with_time t (with_time u c) ≡ with_time t c
  pub with_time-time_of : (c : C) → with_time (time_of c) c ≡ c

abbrev pub timed_vote : Timed CanonicalVote
timed_vote = record {
  time_of = λ c. c.timestamp;
  with_time = λ t c. record c { timestamp = t };
  equal = CanonicalVote-discrete;
  with_time-with_time = λ t u c. refl;
  with_time-time_of = λ c. refl;
}

abbrev pub timed_proposal : Timed CanonicalProposal
timed_proposal = record {
  time_of = λ c. c.timestamp;
  with_time = λ t c. record c { timestamp = t };
  equal = CanonicalProposal-discrete;
  with_time-with_time = λ t u c. refl;
  with_time-time_of = λ c. refl;
}
