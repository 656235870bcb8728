-- ===== src/ReadBuffer/Tests.antt =====
-- Runs of the read buffer, on blocks that are handed out full of zeros.
use nativepg.Prelude.{
  ℕ, ◌*◌, ◌^◌, ◌<◌, ◌≤◌, ◌≡◌, ◌⊎◌, refl, List, [], ◌∷◌, replicate, length-replicate, length, take,
  arith,
}
use nativepg.ReadBuffer.{
  ReadBuffer, next_power_of_2, make_read_buffer, prepare, commit, receive, consume, committed_area,
  prepared_size,
}
use nativepg.ReadBuffer.Powers.{next_power_of_2_lem}
use nativepg.ReadBuffer.Areas.{BufferInv, Prepared, make-BufferInv, prepare-Prepared}
use nativepg.ReadBuffer.History.{History, Conserved, History-Conserved}

abbrev zeros : ℕ → List ℕ
zeros n = replicate n 0

zeros_sized : (n : ℕ) → length (zeros n) ≡ n
zeros_sized n = length-replicate n 0

abbrev four : ReadBuffer
four = record { size = 4; committed_offset = 1; prepared_offset = 3; memory = 1 ∷ 2 ∷ 3 ∷ 4 ∷ [] }

four-BufferInv : BufferInv four
four-BufferInv = record {
  ordered = omega arith;
  within = omega arith;
  block = refl;
  fits = omega arith;
}

prepare-Prepared_example : Prepared four 2 (prepare zeros four 2)
prepare-Prepared_example = prepare-Prepared zeros zeros_sized four 2 four-BufferInv (omega arith)

next_power_of_2_lem_example :
    (0 < next_power_of_2 5)
    × (5 ≤ next_power_of_2 5)
    × (next_power_of_2 5 < 2 ^ 64)
    × (5 ≤ 2 ^ 63
        → (j : ℕ) × (next_power_of_2 5 ≡ 2 ^ j)
          × ((next_power_of_2 5 ≡ 1) ⊎ (next_power_of_2 5 < 2 * 5)))
next_power_of_2_lem_example = next_power_of_2_lem 5 (omega arith)

abbrev fresh : ReadBuffer
fresh = make_read_buffer zeros 4

fresh_room : 2 ≤ prepared_size fresh
fresh_room = omega (arith, (make-BufferInv zeros zeros_sized 4 (omega arith)).2)

-- Two bytes come in and one of them is consumed.
one_taken :
    History zeros
      (8 ∷ 9 ∷ [])
      (take 1 (committed_area (commit (receive fresh (8 ∷ 9 ∷ [])) 2)))
      (consume (commit (receive fresh (8 ∷ 9 ∷ [])) 2) 1)
one_taken =
    History.consumed (History.received (History.started 4 (omega arith)) (8 ∷ 9 ∷ []) fresh_room) 1

History-Conserved_example :
    Conserved
      (8 ∷ 9 ∷ [])
      (take 1 (committed_area (commit (receive fresh (8 ∷ 9 ∷ [])) 2)))
      (consume (commit (receive fresh (8 ∷ 9 ∷ [])) 2) 1)
History-Conserved_example = History-Conserved zeros zeros_sized one_taken
