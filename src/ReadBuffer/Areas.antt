-- ===== src/ReadBuffer/Areas.antt =====
-- read_buffer as a queue of bytes.
use nativepg.Prelude.{
  ℕ, zero, suc, ◌+◌, ◌-◌, ◌^◌, ◌≤◌, ◌<◌, ◌≡◌, refl, sym, ◌∙◌, ap, List, [], ◌∷◌, ◌++◌, length,
  length-append, length-take, length-drop, take, drop, take-append_length, take-append, drop-drop,
  drop-take, drop-ge_length, leb, leb→le, min, arith, Bool-cases, inl, inr,
}
use nativepg.ReadBuffer.{
  ReadBuffer, committed_area, prepared_size, next_power_of_2, make_read_buffer, prepare, commit,
  consume, receive, copy_to_front, size_add,
}
use nativepg.ReadBuffer.Powers.{next_power_of_2_lem}

pub record BufferInv (b : ReadBuffer) : Type 0 where
  pub ordered : b.committed_offset ≤ b.prepared_offset
  pub within : b.prepared_offset ≤ b.size
  pub block : length b.memory ≡ b.size
  pub fits : b.size < 2 ^ 64

-- The part of a block between two offsets.
abbrev slice : List ℕ → ℕ → ℕ → List ℕ
slice m c p = take (p - c) (drop c m)

length-slice : (m : List ℕ) (c p : ℕ) → c ≤ p → p ≤ length m → length (slice m c p) ≡ p - c
length-slice m c p h k = length-take (p - c) (drop c m) (omega (arith, length-drop c m))

pub length-committed :
    (b : ReadBuffer)
    → BufferInv b
    → length (committed_area b) ≡ b.prepared_offset - b.committed_offset
length-committed b v =
    length-slice b.memory b.committed_offset b.prepared_offset v.ordered
      (omega (arith, v.within, v.block))

length-copy : (xs ys : List ℕ) → length xs ≤ length ys → length (copy_to_front xs ys) ≡ length ys
length-copy xs ys h =
    omega (arith, length-append xs (drop (length xs) ys), length-drop (length xs) ys)

slice-copy : (xs ys : List ℕ) (n : ℕ) → n ≡ length xs → slice (copy_to_front xs ys) 0 n ≡ xs
slice-copy xs ys n e =
    ap (λ k. take k (copy_to_front xs ys)) (omega (arith, e))
    ∙ take-append_length xs (drop (length xs) ys)

-- What a read appends.
slice-receive :
    (m bytes rest : List ℕ) (c p : ℕ)
    → c ≤ p
    → p ≤ length m
    → slice (take p m ++ (bytes ++ rest)) c (p + length bytes) ≡ slice m c p ++ bytes
slice-receive m bytes rest zero p h k =
    ap (λ n. take n (take p m ++ (bytes ++ rest))) (omega (arith, length-take p m k))
    ∙ take-append (take p m) (bytes ++ rest) (length bytes)
    ∙ ap (λ ys. take p m ++ ys) (take-append_length bytes rest)
    ∙ ap (λ n. take n m ++ bytes) (minus_zero p)
  where
    minus_zero : (n : ℕ) → n ≡ n - 0
    minus_zero n = omega arith
slice-receive [] bytes rest (suc c) p h k = absurd (omega arith)
slice-receive (x ∷ m) bytes rest (suc c) zero h k = elim h [ ]
slice-receive (x ∷ m) bytes rest (suc c) (suc p) h k =
    ap (λ n. take n (drop c (take p m ++ (bytes ++ rest)))) (one_less p c (length bytes))
    ∙ slice-receive m bytes rest c p (omega arith) (omega arith)
    ∙ ap (λ n. take n (drop c m) ++ bytes) (one_more p c)
  where
    one_less : (p c n : ℕ) → suc p + n - suc c ≡ p + n - c
    one_less p c n = omega arith

    one_more : (p c : ℕ) → p - c ≡ suc p - suc c
    one_more p c = omega arith

-- What prepare promises.
abbrev pub Prepared : ReadBuffer → ℕ → ReadBuffer → Type 0
Prepared b n b' = BufferInv b' × (committed_area b' ≡ committed_area b) × (n ≤ prepared_size b')

module _ (new_block : ℕ → List ℕ) (sized : (n : ℕ) → length (new_block n) ≡ n) where
  pub make-BufferInv :
      (n : ℕ)
      → n < 2 ^ 64
      → BufferInv (make_read_buffer new_block n)
        × (committed_area (make_read_buffer new_block n) ≡ [])
        × (n ≤ prepared_size (make_read_buffer new_block n))
  unfolding make_read_buffer
  make-BufferInv n h =
      let p = next_power_of_2_lem n h in
      (
        record {
          ordered = omega arith;
          within = omega arith;
          block = sized (next_power_of_2 n);
          fits = p.2;
        },
        refl,
        omega (arith, p.1),
      )

  moved-Prepared :
      (b : ReadBuffer) (n : ℕ)
      → BufferInv b
      → n ≤ b.committed_offset + prepared_size b
      → Prepared b n (record b {
        committed_offset = 0;
        prepared_offset = b.prepared_offset - b.committed_offset;
        memory = copy_to_front (committed_area b) b.memory;
      })
  moved-Prepared b n v h =
      let l = length-committed b v in
      (
        record {
          ordered = omega arith;
          within = omega (arith, v.ordered, v.within);
          block =
              length-copy (committed_area b) b.memory
                (omega (arith, l, v.ordered, v.within, v.block))
              ∙ v.block;
          fits = v.fits;
        },
        slice-copy (committed_area b) b.memory _ (sym l),
        omega (arith, v.ordered, v.within),
      )

  reallocated-Prepared :
      (b : ReadBuffer) (n size : ℕ)
      → length (committed_area b) + n ≤ size
      → size < 2 ^ 64
      → Prepared b n (record {
        size = size;
        committed_offset = 0;
        prepared_offset = length (committed_area b);
        memory = copy_to_front (committed_area b) (new_block size);
      })
  reallocated-Prepared b n size h k = (
    record {
      ordered = omega arith;
      within = omega arith;
      block =
          length-copy (committed_area b) (new_block size) (omega (arith, sized size)) ∙ sized size;
      fits = k;
    },
    slice-copy (committed_area b) (new_block size) _ refl,
    omega arith,
  )

  -- Making room never loses or reorders a committed byte: after prepare the committed bytes are the
  -- same, the space asked for is there, and the offsets are in order. The sum of the two sizes must
  -- be a std::size_t.
  pub prepare-Prepared :
      (b : ReadBuffer) (n : ℕ)
      → BufferInv b
      → length (committed_area b) + n < 2 ^ 64
      → Prepared b n (prepare new_block b n)
  unfolding prepare
  prepare-Prepared b n v h = elim (Bool-cases (leb n (prepared_size b))) [
    | inl enough ↦ rw enough (v, refl, leb→le _ _ enough)
    | inr short ↦ elim (Bool-cases (leb n (size_add b.committed_offset (prepared_size b)))) [
      | inl move ↦
          rw (short, move)
            (moved-Prepared b n v (omega (arith, leb→le _ _ move, v.ordered, v.within, v.fits)))
      | inr grow ↦
          rw (short, grow)
            (let p = next_power_of_2_lem (size_add (length (committed_area b)) n) (omega arith) in
              reallocated-Prepared b n _ (omega (arith, p.1, h)) p.2)
    ]
  ]

-- A read of bytes that fit the prepared area, and their commit, put them behind the others.
pub commit-receive :
    (b : ReadBuffer) (bytes : List ℕ)
    → BufferInv b
    → length bytes ≤ prepared_size b
    → BufferInv (commit (receive b bytes) (length bytes))
      × (committed_area (commit (receive b bytes) (length bytes)) ≡ committed_area b ++ bytes)
unfolding commit receive
commit-receive b bytes v h =
    let p = b.prepared_offset in
    let rest = drop (p + length bytes) b.memory in
    let taken : min (length bytes) (prepared_size b) ≡ length bytes = omega arith in
    rw taken (
      record {
        ordered = omega (arith, v.ordered);
        within = omega (arith, v.within);
        block = omega (
          arith,
          length-append (take p b.memory) (bytes ++ rest),
          length-append bytes rest,
          length-take p b.memory (omega (arith, v.within, v.block)),
          length-drop (p + length bytes) b.memory,
          v.within,
          v.block,
        );
        fits = v.fits;
      },
      slice-receive b.memory bytes rest b.committed_offset p v.ordered
          (omega (arith, v.within, v.block)),
    )

-- The bytes of a slice from an offset on.
slice-consume : (m : List ℕ) (c p n : ℕ) → n ≤ p - c → slice m (c + n) p ≡ drop n (slice m c p)
slice-consume m c p n h =
    ap (λ k. take k (drop (c + n) m)) (omega arith)
    ∙ ap (take (p - c - n)) (sym (drop-drop n c m))
    ∙ sym (drop-take n (p - c) (drop c m))

drop-min : (n : ℕ) (xs : List ℕ) → drop (min n (length xs)) xs ≡ drop n xs
drop-min n xs = elim (Bool-cases (leb n (length xs))) [
  | inl le ↦ ap (λ k. drop k xs) (omega (arith, leb→le n (length xs) le))
  | inr gt ↦
      drop-ge_length (min n (length xs)) xs (ground arith)
      ∙ sym (drop-ge_length n xs (ground arith))
]

-- Consuming takes the oldest bytes, as many as there are.
pub consume_lem :
    (b : ReadBuffer) (n : ℕ)
    → BufferInv b
    → BufferInv (consume b n) × (committed_area (consume b n) ≡ drop n (committed_area b))
unfolding consume
consume_lem b n v =
    let l = length-committed b v in
    (
      record {
        ordered = omega (arith, v.ordered, l);
        within = v.within;
        block = v.block;
        fits = v.fits;
      },
      slice-consume b.memory b.committed_offset b.prepared_offset
            (min n (length (committed_area b))) (omega (arith, l))
          ∙ drop-min n (committed_area b),
    )
