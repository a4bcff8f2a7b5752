-- ===== src/PrivVal/Checks.antt =====
-- The last signed state, and the guard that compares a request with it.
use tendermintx.Common.{
  ℕ, ℤ, Bytes, Bool, true, false, Option, none, some, [], ◌∷◌, ltb, ltb_ℤ, ◌==◌, ◌==ℤ◌,
  if◌then◌else◌,
}
use tendermintx.Types.Vote.{SignedMsgType, prevote, precommit}

pub data SignError : Type 0 where
  height_regression round_regression step_regression no_sign_bytes : SignError
  sign_failed conflicting_data : SignError

-- How a method ends.
pub data Call {ℓ} (A : Type ℓ) : Type ℓ where
  returns : A → Call A
  fails : SignError → Call A
  panics : Call A

infixl 5 ◌>>=◌
abbrev pub ◌>>=◌ {ℓ κ} : {A : Type ℓ} {B : Type κ} → Call A → (A → Call B) → Call B
returns a >>= f = f a
fails e >>= f = fails e
panics >>= f = panics

abbrev pub or_panic {ℓ} : {A : Type ℓ} → Option A → Call A
or_panic none = panics
or_panic (some a) = returns a

-- `none` is a nil slice.
pub record LastSignState : Type 0 where
  pub height : ℤ
  pub round : ℤ
  pub step : ℕ
  pub signature : Option Bytes
  pub sign_bytes : Option Bytes

abbrev pub step_none : ℕ
step_none = 0

abbrev pub step_propose : ℕ
step_propose = 1

abbrev pub step_prevote : ℕ
step_prevote = 2

abbrev pub step_precommit : ℕ
step_precommit = 3

unfoldable pub vote_to_step : SignedMsgType → Call ℕ
vote_to_step prevote = returns step_prevote
vote_to_step precommit = returns step_precommit
vote_to_step _ = panics

-- The height, round and step match: the last signature is to be reused, if there is one.
check_reuse : Option Bytes → Option Bytes → Call Bool
check_reuse none signature = fails no_sign_bytes
check_reuse (some _) none = panics
check_reuse (some _) (some _) = returns true

-- `CheckHRS`
unfoldable pub check_hrs : LastSignState → ℤ → ℤ → ℕ → Call Bool
unfolding check_reuse
check_hrs lss height round step =
    if ltb_ℤ height lss.height
    then fails height_regression
    else if lss.height ==ℤ height
    then (if ltb_ℤ round lss.round
        then fails round_regression
        else if lss.round ==ℤ round
        then (if ltb step lss.step
            then fails step_regression
            else if lss.step == step
            then check_reuse lss.sign_bytes lss.signature
            else returns false)
        else returns false)
    else returns false

-- An empty slice is omitted from the file and comes back as nil.
omit_empty : Option Bytes → Option Bytes
omit_empty none = none
omit_empty (some []) = none
omit_empty (some (b ∷ bs)) = some (b ∷ bs)

-- What the JSON file holds of a state.
unfoldable pub to_file : LastSignState → LastSignState
unfolding omit_empty
to_file lss = record lss {
  signature = omit_empty lss.signature;
  sign_bytes = omit_empty lss.sign_bytes;
}
