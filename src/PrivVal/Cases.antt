-- ===== src/PrivVal/Cases.antt =====
-- The two ways in which a signature leaves the validator.
use tendermintx.Common.{
  ℕ, ℤ, Bytes, true, false, Option, none, some, ◌≡◌, refl, ◌⊎◌, inl, inr, ◌<ℤ◌, ◌<◌, arith, ap,
  eq_of_parts, Bool-cases,
}
use tendermintx.PrivVal.Codec.{Wire, Timed}
use tendermintx.PrivVal.Checks.{
  Call, returns, fails, panics, ◌>>=◌, or_panic, LastSignState, check_hrs, to_file,
}
use tendermintx.PrivVal.Sign.{Env, FilePv, resign, sign_new, sign_canonical}

-- The position of one request is behind that of another.
abbrev pub Before : ℤ → ℤ → ℕ → ℤ → ℤ → ℕ → Type 0
Before h r s h' r' s' = (h <ℤ h') ⊎ ((h ≡ h') × ((r <ℤ r') ⊎ ((r ≡ r') × (s < s'))))

abbrev pub LastFor : LastSignState → ℤ → ℤ → ℕ → Type 0
LastFor lss h r s = (lss.height ≡ h) × (lss.round ≡ r) × (lss.step ≡ s)

check_hrs-true :
    (lss : LastSignState) (h r : ℤ) (s : ℕ) → check_hrs lss h r s ≡ returns true → LastFor lss h r s
unfolding check_hrs
check_hrs-true lss h r s e = ground (arith, eq_of_parts lss.height h, eq_of_parts lss.round r)

check_hrs_bytes :
    (lss : LastSignState) (h r : ℤ) (s : ℕ)
    → check_hrs lss h r s ≡ returns true
    → (b : Bytes) × (lss.sign_bytes ≡ some b)
unfolding check_hrs
check_hrs_bytes lss h r s e = ground arith

check_hrs_signature :
    (lss : LastSignState) (h r : ℤ) (s : ℕ)
    → check_hrs lss h r s ≡ returns true
    → (sig : Bytes) × (lss.signature ≡ some sig)
unfolding check_hrs
check_hrs_signature lss h r s e = ground arith

check_hrs-false :
    (lss : LastSignState) (h r : ℤ) (s : ℕ)
    → check_hrs lss h r s ≡ returns false
    → Before lss.height lss.round lss.step h r s
unfolding check_hrs
check_hrs-false lss h r s e = ground (arith, eq_of_parts lss.height h, eq_of_parts lss.round r)

-- Inversion of a call that returns.
pub >>=-eq-returns {ℓ κ} :
    {A : Type ℓ} {B : Type κ} (m : Call A) (f : A → Call B) {b : B}
    → (m >>= f) ≡ returns b
    → (a : A) × (m ≡ returns a) × (f a ≡ returns b)
>>=-eq-returns (returns a) f h = (a, refl, h)
>>=-eq-returns (fails _) f h = cc
>>=-eq-returns panics f h = cc

-- The validator after a new signature.
unfoldable pub signed : ℤ → ℤ → ℕ → Bytes → Bytes → FilePv → FilePv
signed h r s b sig pv =
    let last : LastSignState = record {
      height = h;
      round = r;
      step = s;
      signature = some sig;
      sign_bytes = some b;
    } in
    record pv { last_sign_state = last; disk = to_file last }

module _ {C : Type 0} (wire : Wire C) (timed : Timed C) where
  -- The message is the last one but for its timestamp.
  retimed :
      (now : ℤ) (c last : C)
      → timed.with_time now c ≡ timed.with_time now last
      → timed.with_time (timed.time_of last) c ≡ last
  retimed now c last h = cc (
    timed.with_time-with_time (timed.time_of last) now c,
    timed.with_time-with_time (timed.time_of last) now last,
    timed.with_time-time_of last,
    ap (timed.with_time (timed.time_of last)) h,
  )

  resign_lem :
      (e : Env) (lss : LastSignState) (c last : C) {b nb sg sig : Bytes} {time : ℤ}
      → lss.sign_bytes ≡ some b
      → lss.signature ≡ some sg
      → wire.marshal last ≡ some b
      → wire.marshal c ≡ some nb
      → resign wire timed e lss nb (timed.time_of c) ≡ returns (sig, time)
      → (sig ≡ sg) × (wire.marshal (timed.with_time time c) ≡ some b)
  unfolding resign
  resign_lem e lss c last hb hs hl hc h = ground (
    arith,
    wire.round_trip last hl,
    wire.round_trip c hc,
    timed.with_time-time_of c,
    retimed e.now c last,
  )

  -- The last signature again, or a new one at a later position that is now the last.
  pub data Outcome (h r : ℤ) (s : ℕ) (c : C) (pv pv' : FilePv) (sig : Bytes) (time : ℤ)
      : Type 0 where
    reused :
        {b : Bytes}
        → LastFor pv.last_sign_state h r s
        → pv' ≡ pv
        → pv.last_sign_state.sign_bytes ≡ some b
        → pv.last_sign_state.signature ≡ some sig
        → wire.marshal (timed.with_time time c) ≡ some b
        → Outcome h r s c pv pv' sig time
    fresh :
        {b : Bytes}
        → Before pv.last_sign_state.height pv.last_sign_state.round pv.last_sign_state.step h r s
        → pv' ≡ signed h r s b sig pv
        → wire.marshal (timed.with_time time c) ≡ some b
        → Outcome h r s c pv pv' sig time

  sign_new_lem :
      (e : Env) (h r : ℤ) (s : ℕ) (c : C) {b sig : Bytes} {time : ℤ} (pv pv' : FilePv)
      → Before pv.last_sign_state.height pv.last_sign_state.round pv.last_sign_state.step h r s
      → wire.marshal c ≡ some b
      → sign_new wire timed e h r s b (timed.time_of c) pv ≡ returns (pv', sig, time)
      → Outcome h r s c pv pv' sig time
  unfolding sign_new signed
  sign_new_lem e h r s c {b} {sig} {time} pv pv' later hb eq =
      fresh {b = b} later (ground arith) (ground (arith, timed.with_time-time_of c))

  -- The bytes of the last state encode a message of this type, if it is for this position.
  abbrev pub Known : LastSignState → ℤ → ℤ → ℕ → Type 0
  Known lss h r s =
      (b : Bytes)
      → lss.sign_bytes ≡ some b
      → LastFor lss h r s
      → (last : C) × (wire.marshal last ≡ some b)

  module _ (e : Env) (h r : ℤ) (s : ℕ) (c : C) (pv : FilePv) {pv' : FilePv} {sig : Bytes}
      {time : ℤ} where
    reuse_lem :
        {b : Bytes}
        → Known pv.last_sign_state h r s
        → check_hrs pv.last_sign_state h r s ≡ returns true
        → wire.marshal c ≡ some b
        → ◌>>=◌ {A = Bytes × ℤ} {B = FilePv × Bytes × ℤ}
            (resign wire timed e pv.last_sign_state b (timed.time_of c))
            (λ (g, t). returns (pv, g, t))
          ≡ returns (pv', sig, time)
        → Outcome h r s c pv pv' sig time
    reuse_lem {b} known same hb eq =
        let lss = pv.last_sign_state in
        let (old, hold) = check_hrs_bytes lss h r s same in
        let (sg, hsg) = check_hrs_signature lss h r s same in
        let here = check_hrs-true lss h r s same in
        let (last, hl) = known old hold here in
        let ((sig', time'), again, done) =
          >>=-eq-returns (resign wire timed e lss b (timed.time_of c)) _ eq in
        let (hs, hm) = resign_lem e lss c last hold hsg hl hb again in
        reused {b = old} here (ground arith) hold (ground arith) (ground arith)

    pub sign_canonical_lem :
        Known pv.last_sign_state h r s
        → sign_canonical wire timed e h r s (some c) (timed.time_of c) pv ≡ returns (pv', sig, time)
        → Outcome h r s c pv pv' sig time
    unfolding sign_canonical
    sign_canonical_lem known eq =
        let (same, checked, eq1) = >>=-eq-returns (check_hrs pv.last_sign_state h r s) _ eq in
        let (b, hb, eq2) = >>=-eq-returns (or_panic (wire.marshal c)) _ eq1 in
        let hb' : wire.marshal c ≡ some b = ground arith in
        elim (Bool-cases same) [
          | inl t ↦ reuse_lem known (rw t at checked) hb' (rw t at eq2)
          | inr f ↦
              sign_new_lem e h r s c pv pv' (check_hrs-false _ _ _ _ (rw f at checked)) hb'
                (rw f at eq2)
        ]

  -- A call that returns had a canonical message to sign.
  pub sign_canonical-some :
      (e : Env) (h r : ℤ) (s : ℕ) (o : Option C) (t : ℤ) (pv : FilePv) {res : FilePv × Bytes × ℤ}
      → sign_canonical wire timed e h r s o t pv ≡ returns res
      → (c : C) × (o ≡ some c)
  unfolding sign_canonical
  sign_canonical-some e h r s (some c) t pv eq = (c, refl)
  sign_canonical-some e h r s none t pv eq =
      let (same, checked, eq1) = >>=-eq-returns (check_hrs pv.last_sign_state h r s) _ eq in cc
