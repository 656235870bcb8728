-- ===== src/ReadBuffer/History.antt =====
-- read_buffer over its whole life, as exec_fsm, startup_fsm and the reader of a multiplexed
-- connection use it: the bytes come out as they went in.
use nativepg.Prelude.{
  ℕ, ◌+◌, ◌^◌, ◌≤◌, ◌<◌, ◌≡◌, refl, sym, ◌∙◌, ap, List, [], ◌++◌, length, take, drop,
  take-append-drop, append_assoc, arith,
}
use nativepg.ReadBuffer.{
  ReadBuffer, committed_area, prepared_size, make_read_buffer, prepare, commit, consume, receive,
  reset,
}
use nativepg.ReadBuffer.Areas.{
  BufferInv, make-BufferInv, prepare-Prepared, commit-receive, consume_lem,
}

module _ (new_block : ℕ → List ℕ) where
  -- The bytes read from the server and the bytes consumed, since the start or the last reset.
  pub data History : List ℕ → List ℕ → ReadBuffer → Type 0 where
    started : (n : ℕ) → n < 2 ^ 64 → History [] [] (make_read_buffer new_block n)
    prepared :
        {fed taken : List ℕ} {b : ReadBuffer}
        → History fed taken b
        → (n : ℕ) → length (committed_area b) + n < 2 ^ 64
        → History fed taken (prepare new_block b n)
    received :
        {fed taken : List ℕ} {b : ReadBuffer}
        → History fed taken b
        → (bytes : List ℕ) → length bytes ≤ prepared_size b
        → History (fed ++ bytes) taken (commit (receive b bytes) (length bytes))
    consumed :
        {fed taken : List ℕ} {b : ReadBuffer}
        → History fed taken b
        → (n : ℕ) → History fed (taken ++ take n (committed_area b)) (consume b n)
    restarted :
        {fed taken : List ℕ} {b : ReadBuffer} → History fed taken b → History [] [] (reset b)

abbrev pub Conserved : List ℕ → List ℕ → ReadBuffer → Type 0
Conserved fed taken b = BufferInv b × (fed ≡ taken ++ committed_area b)

reset-Conserved : (b : ReadBuffer) → BufferInv b → Conserved [] [] (reset b)
unfolding reset
reset-Conserved b v =
    (record { ordered = omega arith; within = omega arith; block = v.block; fits = v.fits }, refl)

-- Where memory comes in blocks of the size asked for: over any sequence of prepare, for sizes that
-- sum up to a std::size_t, of reads that fit, with their commit, of consume and reset, what was read is what
-- was consumed followed by what is committed: no byte is lost, doubled or moved, and the offsets
-- stay in order.
pub History-Conserved :
    (new_block : ℕ → List ℕ)
    → ((n : ℕ) → length (new_block n) ≡ n)
    → {fed taken : List ℕ} {b : ReadBuffer} → History new_block fed taken b
    → Conserved fed taken b
History-Conserved blocks sized (started n h) =
    let (v, empty, room) = make-BufferInv blocks sized n h in (v, sym empty)
History-Conserved blocks sized (prepared {b = b} past n h) =
    let (v, e) = History-Conserved blocks sized past in
    let (v', same, room) = prepare-Prepared blocks sized b n v h in (v', rw same e)
History-Conserved blocks sized (received {fed = fed} {taken = taken} {b = b} past bytes h) =
    let (v, e) = History-Conserved blocks sized past in
    let (v', grown) = commit-receive b bytes v h in
    (v', rw grown (ap (λ xs. xs ++ bytes) e ∙ append_assoc taken (committed_area b) bytes))
History-Conserved blocks sized (consumed {fed = fed} {taken = taken} {b = b} past n) =
    let (v, e) = History-Conserved blocks sized past in
    let (v', left) = consume_lem b n v in
    (
      v',
      rw left (
          e
          ∙ ap (λ xs. taken ++ xs) (sym (take-append-drop n (committed_area b)))
          ∙ sym (append_assoc taken (take n (committed_area b)) (drop n (committed_area b)))),
    )
History-Conserved blocks sized (restarted {b = b} past) =
    reset-Conserved b (History-Conserved blocks sized past).0
