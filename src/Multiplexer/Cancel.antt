-- ===== src/Multiplexer/Cancel.antt =====
-- multiplexer::cancel: a request is abandoned and what the server owes stays counted.
use nativepg.Prelude.{ℕ, ◌≡◌, Option, none, some}
use nativepg.Multiplexer.{Multiplexer}
use nativepg.Multiplexer.Invariant.{MuxInv, outstanding}
use nativepg.Multiplexer.Queued.{IsSilent}

-- The queue and the machine after a call of cancel.
abbrev pub Abandoned : Multiplexer → ℕ → Option Multiplexer → Type 0
Abandoned m h none = ⊥
Abandoned m h (some m') =
    MuxInv m'
    × (outstanding m' ≡ outstanding m)
    × IsSilent h m'.elems
    × (m'.completions ≡ m.completions)
