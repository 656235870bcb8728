-- ===== src/Connect/Closing.antt =====
-- connect_fsm closes what it has opened where it fails, and only there (src/connect_fsm.cpp).
use nativepg.Prelude.{
  ℕ, ◌≡◌, refl, sym, subst, List, [], ◌∷◌, Option, none, some, ◌⊎◌, inl, inr, All, ◌>>=◌,
}
use nativepg.Protocol.{ErrorCode}
use nativepg.ReadBuffer.{ReadBuffer}
use nativepg.Wire.{Endian}
use nativepg.Startup.{ScramFsm, ConnectParams}
use nativepg.Connect.{
  done, write, read, Driven, ConnectPoint, not_started, connecting, starting, closing, ConnectFsm,
  ConnectResult, ended, connect, close, transfer, Connected, after_startup, drive, connect_at,
  resume,
}

abbrev pub NotClose : ConnectResult → Type 0
NotClose close = ⊥
NotClose _ = Unit {0}

abbrev pub IsError : ErrorCode → Type 0
IsError none = ⊥
IsError (some e) = Unit {0}

-- What was asked for, the newest first: a close, and none before it.
abbrev pub IsClosedOnce : List ConnectResult → Type 0
IsClosedOnce (close ∷ t) = All NotClose t
IsClosedOnce _ = ⊥

abbrev pub IsMore : ConnectResult → Type 0
IsMore (ended ec) = ⊥
IsMore _ = Unit {0}

module _ {S : Type 0} (scram_fsm : ScramFsm S) (endian : Endian) (params : ConnectParams)
    (new_block : ℕ → List ℕ) where
  abbrev Phase : ConnectPoint → ErrorCode → List ConnectResult → Type 0
  Phase closing ec t = IsClosedOnce t × IsError ec
  Phase _ ec t = All NotClose t

  -- How it may end, by what was asked for.
  abbrev pub Ended : ErrorCode → List ConnectResult → Type 0
  Ended ec t = ((ec ≡ none) × All NotClose t) ⊎ (IsError ec × IsClosedOnce t)

  abbrev Next : List ConnectResult → Connected scram_fsm endian params new_block → Type 0
  Next t (ended ec, x, b) = Ended ec t
  Next t (r, x, b) = Phase x.point x.stored_ec (r ∷ t)

  abbrev NextOf : List ConnectResult → Option (Connected scram_fsm endian params new_block) → Type 0
  NextOf t none = Unit {0}
  NextOf t (some r) = Next t r

  started :
      (x : ConnectFsm S) (t : List ConnectResult) (r : Driven scram_fsm endian params new_block)
      → All NotClose t
      → Next t (after_startup scram_fsm endian params new_block x r)
  started x t (done none, d, b) h = inl (refl, h)
  started x t (done (some e), d, b) h = (h, tt)
  started x t (write bytes, d, b) h = (tt, h)
  started x t (read n, d, b) h = (tt, h)

  started_of :
      (x : ConnectFsm S) (t : List ConnectResult)
      (o : Option (Driven scram_fsm endian params new_block))
      → All NotClose t
      → NextOf t (o >>= λ r. some (after_startup scram_fsm endian params new_block x r))
  started_of x t none h = tt
  started_of x t (some r) h = started x t r h

  at-Next :
      (p : ConnectPoint) (x : ConnectFsm S) (b : ReadBuffer) (ec : ErrorCode) (n : ℕ)
      (t : List ConnectResult)
      → Phase p x.stored_ec t
      → NextOf t (connect_at scram_fsm endian params new_block p x b ec n)
  at-Next not_started x b ec n t h = (tt, h)
  at-Next connecting x b (some e) n t h = (h, tt)
  at-Next connecting x b none n t h =
      started_of x t (drive scram_fsm endian params new_block x.startup b none n) h
  at-Next starting x b ec n t h =
      started_of x t (drive scram_fsm endian params new_block x.startup b ec n) h
  at-Next closing x b ec n t h = inr (h.1, h.0)

  -- The results of the calls so far, the newest first, and the machine that they have led to; the
  -- codes and the bytes of the operations in between are arbitrary.
  pub data History : List ConnectResult → ConnectFsm S → Type 0 where
    begun : (x : ConnectFsm S) → x.point ≡ not_started → History [] x
    later :
        {t : List ConnectResult} {x y : ConnectFsm S} {r : ConnectResult} (b c : ReadBuffer)
        (ec : ErrorCode) (n : ℕ)
        → History t x
        → resume scram_fsm endian params new_block x b ec n ≡ some (r, y, c)
        → IsMore r
        → History (r ∷ t) y

  resumed-Next :
      (x : ConnectFsm S) (b : ReadBuffer) (ec : ErrorCode) (n : ℕ) (t : List ConnectResult)
      → Phase x.point x.stored_ec t
      → NextOf t (resume scram_fsm endian params new_block x b ec n)
  unfolding resume
  resumed-Next x b ec n t h = at-Next x.point x b ec n t h

  more-Phase :
      (t : List ConnectResult) (r : ConnectResult) (y : ConnectFsm S) (c : ReadBuffer)
      → IsMore r
      → Next t (r, y, c)
      → Phase y.point y.stored_ec (r ∷ t)
  more-Phase t (ended ec) y c i n = elim i [ ]
  more-Phase t connect y c i n = n
  more-Phase t close y c i n = n
  more-Phase t (transfer d) y c i n = n

  History-Phase :
      (t : List ConnectResult) (x : ConnectFsm S) → History t x → Phase x.point x.stored_ec t
  History-Phase _ x (begun _ h) = subst (λ p. Phase p x.stored_ec []) (sym h) tt
  History-Phase _ _ (later {t} {x} {y} {r} b c ec n past h i) =
      more-Phase t r y c i (subst (NextOf t) h (resumed-Next x b ec n t (History-Phase t x past)))

  -- Over all calls of connect_fsm, with any codes and bytes for the operations that it asks for:
  -- where it ends with success, it has never asked to close the connection; where it ends with an
  -- error, from the connect, the startup or a transfer, the close was asked for exactly once, and
  -- right before.
  pub connect-Ended :
      (t : List ConnectResult) (x y : ConnectFsm S) (b c : ReadBuffer) (ec code : ErrorCode) (n : ℕ)
      → History t x
      → resume scram_fsm endian params new_block x b ec n ≡ some (ended code, y, c)
      → Ended code t
  connect-Ended t x y b c ec code n past h =
      subst (NextOf t) h (resumed-Next x b ec n t (History-Phase t x past))
