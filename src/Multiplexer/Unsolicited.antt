-- ===== src/Multiplexer/Unsolicited.antt =====
-- multiplexer::on_message and cleanup, when the server speaks while nothing is owed.
use nativepg.Prelude.{◌<◌, ◌≡◌, refl, false, List, [], ◌∷◌, ◌++◌, none, some, All, arith, lt→leb}
use nativepg.Protocol.{BackendMessage, client, unmatched_request}
use nativepg.ReadResponse.{is_async}
use nativepg.Multiplexer.{
  ElemStatus, MultiplexerElem, StreamStatus, StreamFsm, Multiplexer, drop_abandoned,
  stream_on_message, stream_front, on_message, pending_offset, prepare_write, cleanup,
}

abbrev pub IsAbandonedUnwritten : MultiplexerElem → Type 0
IsAbandonedUnwritten e = e.status ≡ ElemStatus.abandoned_pending

drop_abandoned-All :
    (es : List MultiplexerElem) → All IsAbandonedUnwritten es → drop_abandoned es ≡ []
unfolding drop_abandoned
drop_abandoned-All [] h = refl
drop_abandoned-All (e ∷ es) (a, h) = rw a (drop_abandoned-All es h)

unmatched :
    (s : StreamFsm) (es : List MultiplexerElem) (msg : BackendMessage)
    → s.status ≡ StreamStatus.initial
    → drop_abandoned es ≡ []
    → stream_on_message s es msg
      ≡ some
          (record { ec = some (client unmatched_request); stream = s; elems = []; completed = [] })
unfolding stream_on_message stream_front
unmatched s es msg idle gone = ground (arith, idle, gone)

-- Where every queued request has been abandoned before it was written and is still counted as
-- pending, a message of the server that is no notice empties the queue and not the count. The code
-- returned asks for the connection to be torn down, and then cleanup, and prepare_write too, form
-- an iterator in front of the queue: undefined.
pub unsolicited_breaks_cleanup :
    (m : Multiplexer) (msg : BackendMessage)
    → m.stream.status ≡ StreamStatus.initial
    → All IsAbandonedUnwritten m.elems
    → 0 < m.num_pending
    → is_async msg.kind ≡ false
    → (m' : Multiplexer) × (on_message m msg ≡ some (some (client unmatched_request), m'))
      × (cleanup m' ≡ none)
      × (prepare_write m' ≡ none)
unfolding on_message cleanup prepare_write pending_offset
unsolicited_breaks_cleanup m msg idle gone pos sync = (
  record m { elems = []; completions = m.completions ++ [] },
  rw (sync, unmatched m.stream m.elems msg idle (drop_abandoned-All m.elems gone)),
  rw (lt→leb m.num_pending 0 pos),
  rw (lt→leb m.num_pending 0 pos),
)
