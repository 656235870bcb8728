-- ===== src/Wire/Delimiting.antt =====
-- message_missing_bytes on the frames of the protocol: how a reader finds the end of a message.
use nativepg.Prelude.{
  ℕ, false, zero, suc, ◌+◌, ◌-◌, ◌<◌, ◌≤◌, ◌≡◌, refl, sym, subst, pos, List, ◌∷◌, ◌++◌, inr, arith,
  length, length-take, take, ltb,
}
use nativepg.Wire.{Endian, EndianLaws, int32_max}
use nativepg.Wire.Framing.{parse_header, missing_of, message_missing_bytes}
use nativepg.Wire.Frames.{frame}

missing_of_lem :
    (t n size : ℕ)
    → 4 + n ≤ int32_max
    → missing_of size (inr (record { type = t; size = pos (4 + n) })) ≡ 5 + n - size
unfolding missing_of
missing_of_lem t n size h = ground arith

-- The bytes of a message up to some length, and what is reported to be missing.
abbrev pub Missing : ℕ → ℕ → ℕ → Type 0
Missing total n k =
    (n + k ≤ total) × (n < total → 0 < k) × (n < 5 → n + k ≡ 5) × (5 ≤ n → n + k ≡ total)

module _ (endian : Endian) (laws : EndianLaws endian) where
  pub header_lem :
      (t a b c d n : ℕ)
      → endian.load_big_s32 a b c d ≡ pos (4 + n)
      → parse_header endian t a b c d ≡ inr (record { type = t; size = pos (4 + n) })
  unfolding parse_header
  header_lem t a b c d n h = rw (h, big) refl
    where
      big : ltb (4 + n) 4 ≡ false
      big = ground arith

  bytes_cut :
      (t a b c d : ℕ) (body : List ℕ)
      → endian.load_big_s32 a b c d ≡ pos (4 + length body)
      → 4 + length body ≤ int32_max
      → (n : ℕ) → n ≤ length (t ∷ a ∷ b ∷ c ∷ d ∷ body)
      → Missing
          (length (t ∷ a ∷ b ∷ c ∷ d ∷ body))
          n
          (message_missing_bytes endian (take n (t ∷ a ∷ b ∷ c ∷ d ∷ body)))
  unfolding message_missing_bytes
  bytes_cut t a b c d body q h zero le =
      (omega arith, λ l. omega arith, λ l. omega arith, λ l. absurd (omega arith))
  bytes_cut t a b c d body q h (suc zero) le =
      (omega arith, λ l. omega arith, λ l. omega arith, λ l. absurd (omega arith))
  bytes_cut t a b c d body q h (suc (suc zero)) le =
      (omega arith, λ l. omega arith, λ l. omega arith, λ l. absurd (omega arith))
  bytes_cut t a b c d body q h (suc (suc (suc zero))) le =
      (omega arith, λ l. omega arith, λ l. omega arith, λ l. absurd (omega arith))
  bytes_cut t a b c d body q h (suc (suc (suc (suc zero)))) le =
      (omega arith, λ l. omega arith, λ l. omega arith, λ l. absurd (omega arith))
  bytes_cut t a b c d body q h (suc (suc (suc (suc (suc n))))) le =
      rw
        (
          header_lem t a b c d (length body) q,
          missing_of_lem t (length body) (length (take n body) + 5) h,
        )
        (let l = length-take n body in
          (
            omega (arith, l),
            λ x. omega (arith, l),
            λ x. absurd (omega arith),
            λ x. omega (arith, l),
          ))

  -- Where integers are stored as documented, for a message that fits: a reader that has the first n
  -- bytes of a message, for any n up to all of them, and asks how many are missing: the answer never
  -- reaches behind the end of the message, and it is positive while the message is not complete. With
  -- fewer than five bytes it is what is missing of the five bytes of the header, and from the fifth
  -- byte on it is what is missing of the message.
  pub message_missing_bytes_lem :
      (t : ℕ) (body : List ℕ) (n : ℕ)
      → 4 + length body ≤ int32_max
      → n ≤ length (frame endian t body)
      → Missing
          (length (frame endian t body))
          n
          (message_missing_bytes endian (take n (frame endian t body)))
  message_missing_bytes_lem t body n h le =
      let (a, b, c, d, stored, loaded) =
        laws.read_back (pos (4 + length body)) (omega (arith, h)) in
      subst
        (λ l.
          n ≤ length (t ∷ (l ++ body))
          → Missing (length (t ∷ (l ++ body))) n
              (message_missing_bytes endian (take n (t ∷ (l ++ body)))))
        (sym stored) (bytes_cut t a b c d body loaded h n) le
