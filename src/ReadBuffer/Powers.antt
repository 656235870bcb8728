-- ===== src/ReadBuffer/Powers.antt =====
-- next_power_of_2 of read_buffer.hpp.
use nativepg.Prelude.{
  ℕ, zero, suc, ◌*◌, ◌^◌, ◌≤◌, ◌<◌, ◌≡◌, refl, true, leb, leb→le, arith, ◌⊎◌, inl, inr, Bool-cases,
  ap, sym, ◌∙◌, le→leb,
}
use mathlib.Core.Bool.{false≢true}
use native.Mathlib.Nat.{pow-suc}
use nativepg.ReadBuffer.{bit_ceil_from, next_power_of_2}

-- What the search for a power gives: one that is large enough, and not twice as large as needed.
abbrev Ceiling : ℕ → ℕ → ℕ → ℕ → Type 0
Ceiling fuel p n r = (j : ℕ) × (r ≡ p * 2 ^ j) × (j ≤ fuel) × (n ≤ r) × ((r ≡ 1) ⊎ (r < 2 * n))

double_pow : (p j r : ℕ) → r ≡ 2 * p * 2 ^ j → r ≡ p * 2 ^ suc j
double_pow p j r h = rw pow-suc (omega (arith, h))

fits_doubled : (p fuel n : ℕ) → n ≤ p * 2 ^ suc fuel → n ≤ 2 * p * 2 ^ fuel
fits_doubled p fuel n h = omega (arith, ap (λ t. p * t) (pow-suc 2 fuel))

bit_ceil_from-Ceiling :
    (fuel p n : ℕ)
    → n ≤ p * 2 ^ fuel
    → (p ≡ 1) ⊎ (p < 2 * n)
    → Ceiling fuel p n (bit_ceil_from fuel p n)
unfolding bit_ceil_from
bit_ceil_from-Ceiling zero p n h small = (0, omega arith, omega arith, omega arith, small)
bit_ceil_from-Ceiling (suc fuel) p n h small = elim (Bool-cases (leb n p)) [
  | inl big ↦ rw big (0, omega arith, omega arith, leb→le n p big, small)
  | inr more ↦
      let (j, e, le, fits, s) =
        bit_ceil_from-Ceiling fuel (2 * p) n (fits_doubled p fuel n h) (inr (ground arith)) in
      rw more (suc j, double_pow p j (bit_ceil_from fuel (2 * p) n) e, omega (arith, le), fits, s)
]

-- The sizes that the buffer gets: never 0 and never less than was asked for, a std::size_t, and,
-- where that leaves room for one, the least power of two.
pub next_power_of_2_lem :
    (n : ℕ)
    → n < 2 ^ 64
    → (0 < next_power_of_2 n)
      × (n ≤ next_power_of_2 n)
      × (next_power_of_2 n < 2 ^ 64)
      × (n ≤ 2 ^ 63
          → (j : ℕ) × (next_power_of_2 n ≡ 2 ^ j)
            × ((next_power_of_2 n ≡ 1) ⊎ (next_power_of_2 n < 2 * n)))
unfolding next_power_of_2
next_power_of_2_lem n h = elim (Bool-cases (leb n (2 ^ 63))) [
  | inl small ↦ rw small (power small)
  | inr large ↦
      rw large (
        omega arith,
        omega arith,
        omega arith,
        λ le. absurd (false≢true (sym large ∙ le→leb _ _ le)),
      )
]
  where
    power :
        leb n (2 ^ 63) ≡ true
        → (0 < bit_ceil_from 64 1 n)
          × (n ≤ bit_ceil_from 64 1 n)
          × (bit_ceil_from 64 1 n < 2 ^ 64)
          × (n ≤ 2 ^ 63
              → (j : ℕ) × (bit_ceil_from 64 1 n ≡ 2 ^ j)
                × ((bit_ceil_from 64 1 n ≡ 1) ⊎ (bit_ceil_from 64 1 n < 2 * n)))
    power small =
        let le = leb→le n (2 ^ 63) small in
        let (j, e, l, fits, s) = bit_ceil_from-Ceiling 64 1 n (omega (arith, le)) (inl refl) in
        (omega (arith, s, fits), fits, omega (arith, s, le), λ _. (j, omega (arith, e), s))
