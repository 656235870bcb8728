-- ===== src/Exec/Loop.antt =====
-- The loop of exec_fsm::resume (src/exec_fsm.cpp) over the read buffer, against the stream: it ends,
-- and where it ends is where the stream stops.
use nativepg.Prelude.{
  All-drop, ℕ, zero, suc, ◌+◌, ◌-◌, ◌^◌, ◌≤◌, ◌<◌, ◌≡◌, refl, sym, ap, ◌∙◌, subst, Bool, true,
  false, List, ◌∷◌, length, take, drop, some, All, arith, ◌⊎◌, inl, inr, length-drop, ltb,
  if◌then◌else◌,
}
use nativepg.Protocol.{Error, RequestMessageType}
use nativepg.CheckRequest.{SetupResult}
use nativepg.ReadResponse.{ReadResponseFsm, Result, Outcome}
use nativepg.ReadResponse
use nativepg.ReadBuffer.{ReadBuffer, committed_area, prepared_size, consume}
use nativepg.ReadBuffer.Areas.{BufferInv, prepare-Prepared, consume_lem}
use nativepg.Wire.{Endian, EndianLaws}
use nativepg.Wire.Framing.{MessageHeader, required_size, parse_header}
use nativepg.Parse.Messages.{Parsed, as_backend}
use nativepg.Parse.Dispatch.{
  ParseMessageResult, failed, more, complete, with_size, parse_rest, parse_message,
  parse_any_message,
}
use nativepg.Parse.Answers.{IsByte, Answered, parse_message-Answered}
use nativepg.Exec.{
  ExecPoint, received, done, write, read, out_of_range, Resumed, after_message, on_parsed,
  read_loop,
}
use nativepg.Exec.Stream.{
  ended, waiting, left_request, stops, goes, step, parsed_step, answer_step, Streams, stop, next,
}

-- What resume answers, against the stream of the bytes that were there.
abbrev pub Matched : Endian → ReadResponseFsm → List ℕ → Resumed → Type 0
Matched endian f bytes (done ec, x, b) =
    BufferInv b × Streams endian (ended ec) x.read_fsm (committed_area b) f bytes
Matched endian f bytes (read k, x, b) =
    BufferInv b
    × Streams endian waiting x.read_fsm (committed_area b) f bytes
    × (k ≡ prepared_size b)
    × (0 < k)
    × (x.point ≡ received)
Matched endian f bytes (out_of_range, x, b) =
    BufferInv b × Streams endian left_request x.read_fsm (committed_area b) f bytes
Matched endian f bytes (write p, x, b) = ⊥

Matched-next :
    (endian : Endian) (f g : ReadResponseFsm) (bytes left : List ℕ) (o : Resumed)
    → step endian f bytes ≡ goes g left
    → Matched endian g left o
    → Matched endian f bytes o
Matched-next endian f g bytes left (done ec, x, b) p (v, s) = (v, next f g bytes left p s)
Matched-next endian f g bytes left (read k, x, b) p (v, s, k', pos', at) =
    (v, next f g bytes left p s, k', pos', at)
Matched-next endian f g bytes left (out_of_range, x, b) p (v, s) = (v, next f g bytes left p s)
Matched-next endian f g bytes left (write q, x, b) p m = m

-- A message has 32 bits of length.
with_size_ne_more : (n k : ℕ) (r : Error ⊎ Parsed) → ¬ (with_size n r ≡ more k)
with_size_ne_more n k (inl e) h = cc
with_size_ne_more n k (inr p) h = cc

missing_bound :
    (v : Bool) (required len : ℕ) (r : Error ⊎ Parsed) {n : ℕ}
    → required ≤ 2 ^ 32
    → (if v then more (required - len) else with_size required r) ≡ more n
    → n ≤ 2 ^ 32
missing_bound true required len r {n} le h =
    let same : required - len ≡ n = cc in omega (arith, same, le)
missing_bound false required len r {n} le h = absurd (with_size_ne_more required n r h)

rest_bound :
    (endian : Endian) (rest : List ℕ) (r : Error ⊎ MessageHeader) {n : ℕ}
    → parse_rest endian rest r ≡ more n
    → n ≤ 2 ^ 32
unfolding parse_rest
rest_bound endian rest (inl e) h = cc
rest_bound endian rest (inr h) p =
    missing_bound (ltb (length rest + 5) (required_size h)) (required_size h) (length rest + 5)
      (parse_any_message endian h.type (take (required_size h - 5) rest)) (omega arith) p

few_bound : (len : ℕ) {n : ℕ} → more (5 - len) ≡ more n → n ≤ 2 ^ 32
few_bound len {n} h = let same : 5 - len ≡ n = cc in omega (arith, same)

pub more_bound :
    (endian : Endian) (bytes : List ℕ) {n : ℕ} → parse_message endian bytes ≡ more n → n ≤ 2 ^ 32
unfolding parse_message
more_bound endian (t ∷ a ∷ b ∷ c ∷ d ∷ rest) h =
    rest_bound endian rest (parse_header endian t a b c d) h
more_bound endian bytes h = few_bound (length bytes) h

module _ (endian : Endian) (laws : EndianLaws endian) (new_block : ℕ → List ℕ)
    (sized : (n : ℕ) → length (new_block n) ≡ n) (setup : List RequestMessageType → SetupResult)
    (payload : List ℕ) (p : ExecPoint) where
  -- The rounds of the loop, as `next` that fuel of `fuel` serves.
  abbrev pub Rounds : ℕ → Type 0
  Rounds fuel =
      (f : ReadResponseFsm) (b : ReadBuffer)
      → BufferInv b
      → All IsByte (committed_area b)
      → length (committed_area b) < fuel
      → length (committed_area b) + 2 ^ 32 < 2 ^ 64
      → (o : Resumed) × (read_loop endian new_block setup payload p fuel f b ≡ some o)
        × Matched endian f (committed_area b) o

  -- The step of the stream, over what the buffer holds once the message is consumed.
  consumed_step :
      (o : Outcome) (f : ReadResponseFsm) (b : ReadBuffer) (msg : Parsed) (n : ℕ)
      → BufferInv b
      → parse_message endian (committed_area b) ≡ complete msg n
      → ReadResponse.resume f (as_backend msg) ≡ o
      → step endian f (committed_area b) ≡ answer_step o (committed_area (consume b n))
  consumed_step o f b msg n v e eo =
      ap (λ r. parsed_step r f (committed_area b)) e
      ∙ ap (λ q. answer_step q (drop n (committed_area b))) eo
      ∙ ap (answer_step o) (sym (consume_lem b n v).1)

  -- A message is taken from the buffer.
  taken_round :
      (fuel : ℕ)
      → Rounds fuel
      → (o : Outcome) (f : ReadResponseFsm) (b : ReadBuffer) (msg : Parsed) (n : ℕ) → BufferInv b
      → All IsByte (committed_area b)
      → length (committed_area b) < suc fuel
      → length (committed_area b) + 2 ^ 32 < 2 ^ 64
      → parse_message endian (committed_area b) ≡ complete msg n
      → 5 ≤ n
      → n ≤ length (committed_area b)
      → ReadResponse.resume f (as_backend msg) ≡ o
      → (r : Resumed) × (after_message endian new_block setup payload
            (read_loop endian new_block setup payload p fuel)
            p
            o
            (consume b n)
          ≡ some r)
        × Matched endian f (committed_area b) r
  taken_round fuel ih (Result.done ec, g) f b msg n v ok lt small e five le eo =
      (_, refl, ((consume_lem b n v).0, stop f _ (consumed_step _ f b msg n v e eo)))
  taken_round fuel ih (Result.out_of_range, g) f b msg n v ok lt small e five le eo =
      (_, refl, ((consume_lem b n v).0, stop f _ (consumed_step _ f b msg n v e eo)))
  taken_round fuel ih (Result.read, g) f b msg n v ok lt small e five le eo =
      let (v', left) = consume_lem b n v in
      let shorter = ap length left ∙ length-drop n (committed_area b) in
      let (r, looped, m) =
        ih g (consume b n) v' (subst (All IsByte) (sym left) (All-drop IsByte n _ ok))
          (omega (arith, shorter, lt, five, le)) (omega (arith, shorter, small)) in
      (r, looped, Matched-next endian f g _ _ r (consumed_step _ f b msg n v e eo) m)

  -- One round, by what parse_message answers.
  round :
      (fuel : ℕ)
      → Rounds fuel
      → (q : ParseMessageResult) (f : ReadResponseFsm) (b : ReadBuffer) → BufferInv b
      → All IsByte (committed_area b)
      → length (committed_area b) < suc fuel
      → length (committed_area b) + 2 ^ 32 < 2 ^ 64
      → (missing : ℕ) → Answered (parse_message endian) (committed_area b) missing q
      → parse_message endian (committed_area b) ≡ q
      → (r : Resumed) × (on_parsed endian new_block setup payload
            (read_loop endian new_block setup payload p fuel)
            p
            q
            f
            b
          ≡ some r)
        × Matched endian f (committed_area b) r
  round fuel ih (failed err) f b v ok lt small k a e =
      (_, refl, (v, stop f _ (ap (λ r. parsed_step r f (committed_area b)) e)))
  round fuel ih (more n) f b v ok lt small k a e =
      let (v', same, room) =
        prepare-Prepared new_block sized b n v
          (omega (arith, more_bound endian (committed_area b) e, small)) in
      (
        _,
        refl,
        (
          v',
          stop f _
              (ap (λ r. parsed_step r f (committed_area b)) e ∙ ap (stops waiting f) (sym same)),
          refl,
          omega (arith, a.1, room),
          refl,
        ),
      )
  round fuel ih (complete msg n) f b v ok lt small k a e =
      taken_round fuel ih _ f b msg n v ok lt small e a.1 a.2 refl

  pub rounds : (fuel : ℕ) → Rounds fuel
  unfolding read_loop
  rounds zero f b v ok lt small = elim lt [ ]
  rounds (suc fuel) f b v ok lt small =
      round fuel (rounds fuel) (parse_message endian (committed_area b)) f b v ok lt small _
        (parse_message-Answered endian laws (committed_area b) ok) refl
