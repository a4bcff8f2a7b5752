-- ===== src/PrivVal/Safety.antt =====
-- Double-sign protection over a validator's whole life, restarts included.
use tendermintx.Common.{Bytes, none, some, List, [], ◌∷◌, ◌≡◌, ◌⊎◌, All, arith}
use tendermintx.PrivVal.Checks.{LastSignState, to_file}
use tendermintx.PrivVal.Cases.{Before, LastFor}
use tendermintx.PrivVal.Log.{Released}

-- Two released signatures are for one height, round and step.
abbrev pub SameHrs : Released → Released → Type 0
SameHrs a b = (a.height ≡ b.height) × (a.round ≡ b.round) × (a.step ≡ b.step)

abbrev pub SameMessage : Released → Released → Type 0
SameMessage a b = (a.sign_bytes ≡ b.sign_bytes) × (a.signature ≡ b.signature)

-- The last state is later than a released entry, or it is the entry's own.
abbrev pub Covers : LastSignState → Released → Type 0
Covers lss a =
    Before a.height a.round a.step lss.height lss.round lss.step
    ⊎ (LastFor lss a.height a.round a.step
        × ((lss.sign_bytes ≡ none) ⊎ (lss.sign_bytes ≡ a.sign_bytes))
        × ((lss.signature ≡ none) ⊎ (lss.signature ≡ some a.signature)))

-- What the file holds is the state in memory, but for slices that were lost.
abbrev pub Backs : LastSignState → LastSignState → Type 0
Backs disk lss =
    LastFor disk lss.height lss.round lss.step
    × ((disk.sign_bytes ≡ none) ⊎ (disk.sign_bytes ≡ lss.sign_bytes))
    × ((disk.signature ≡ none) ⊎ (disk.signature ≡ lss.signature))

Backs-Covers : (d l : LastSignState) (a : Released) → Backs d l → Covers l a → Covers d a
Backs-Covers d l a b c = ground arith

pub Backs-All :
    (d l : LastSignState) (log : List Released)
    → Backs d l
    → All (Covers l) log
    → All (Covers d) log
Backs-All d l [] b c = tt
Backs-All d l (a ∷ log) b (c, cs) = (Backs-Covers d l a b c, Backs-All d l log b cs)

pub to_file-Backs : (l : LastSignState) → Backs (to_file l) l
unfolding to_file
to_file-Backs l = ground arith

abbrev pub Consistent : List Released → Type 0
Consistent [] = Unit
Consistent (a ∷ log) = All (λ b. SameHrs a b → SameMessage a b) log × Consistent log

-- A released entry at the position of the last state agrees with the earlier ones.
agrees :
    (l : LastSignState) (a b : Released) (bs : Bytes)
    → Covers l b
    → LastFor l a.height a.round a.step
    → l.sign_bytes ≡ some bs
    → a.sign_bytes ≡ some bs
    → l.signature ≡ some a.signature
    → SameHrs a b
    → SameMessage a b
agrees l a b bs c f h ha hs s = ground arith

pub agrees-All :
    (l : LastSignState) (a : Released) (bs : Bytes) (log : List Released)
    → All (Covers l) log
    → LastFor l a.height a.round a.step
    → l.sign_bytes ≡ some bs
    → a.sign_bytes ≡ some bs
    → l.signature ≡ some a.signature
    → All (λ b. SameHrs a b → SameMessage a b) log
agrees-All l a bs [] c f h ha hs = tt
agrees-All l a bs (b ∷ log) (c, cs) f h ha hs =
    (agrees l a b bs c f h ha hs, agrees-All l a bs log cs f h ha hs)

-- An entry past the last state differs in position from the earlier ones, which it then covers.
pub past :
    (l : LastSignState) (a b : Released)
    → Covers l b
    → Before l.height l.round l.step a.height a.round a.step
    → Before b.height b.round b.step a.height a.round a.step
past l a b c f = ground arith

pub not-same :
    (a b : Released)
    → Before b.height b.round b.step a.height a.round a.step
    → SameHrs a b
    → SameMessage a b
not-same a b f s = ground arith
