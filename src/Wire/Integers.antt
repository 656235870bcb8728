-- ===== src/Wire/Integers.antt =====
-- Big-endian integers in two's complement, as boost::endian documents them.
use nativepg.Prelude.{
  ℕ, ◌+◌, ◌-◌, ◌*◌, ◌/◌, ◌%◌, ◌^◌, ◌<◌, ◌≡◌, refl, ap, ◌∙◌, ℤ, pos, negsuc, List, [], ◌∷◌, arith,
  ltb, Bool-cases, lt→ltb, inl, inr, if◌then◌else◌, ltb→lt,
}
use nativepg.Wire.{to_unsigned, Endian, EndianLaws, IsInt16, IsInt32}

abbrev pub to_signed : ℕ → ℕ → ℤ
to_signed bound u = if ltb u (bound / 2) then pos u else negsuc (bound - 1 - u)

abbrev store_big_u16 : ℕ → List ℕ
store_big_u16 u = u / 2 ^ 8 % 256 ∷ u % 256 ∷ []

abbrev store_big_u32 : ℕ → List ℕ
store_big_u32 u = u / 2 ^ 24 % 256 ∷ u / 2 ^ 16 % 256 ∷ u / 2 ^ 8 % 256 ∷ u % 256 ∷ []

abbrev load_big_u32 : ℕ → ℕ → ℕ → ℕ → ℕ
load_big_u32 a b c d = ((a * 256 + b) * 256 + c) * 256 + d

unfoldable pub big_endian : Endian
big_endian = record {
  store_big_s16 = λ z. store_big_u16 (to_unsigned (2 ^ 16) z);
  store_big_s32 = λ z. store_big_u32 (to_unsigned (2 ^ 32) z);
  load_big_s16 = λ a b. to_signed (2 ^ 16) (a * 256 + b);
  load_big_s32 = λ a b c d. to_signed (2 ^ 32) (load_big_u32 a b c d);
}

bytes_lem :
    (u : ℕ)
    → u < 2 ^ 32
    → load_big_u32 (u / 2 ^ 24 % 256) (u / 2 ^ 16 % 256) (u / 2 ^ 8 % 256) (u % 256) ≡ u
bytes_lem u h = omega arith

to_signed-to_unsigned : (z : ℤ) → IsInt32 z → to_signed (2 ^ 32) (to_unsigned (2 ^ 32) z) ≡ z
to_signed-to_unsigned (pos n) h =
    rw (lt→ltb (n % 2 ^ 32) (2 ^ 32 / 2) (omega arith)) (ap pos (omega arith))
to_signed-to_unsigned (negsuc n) h =
    elim (Bool-cases (ltb (2 ^ 32 - 1 - n % 2 ^ 32) (2 ^ 32 / 2))) [
      | inl e ↦ absurd (omega (arith, ltb→lt _ _ e, h))
      | inr e ↦ rw e (ap negsuc (omega arith))
    ]

to_unsigned-lt : (z : ℤ) → to_unsigned (2 ^ 32) z < 2 ^ 32
to_unsigned-lt (pos n) = omega arith
to_unsigned-lt (negsuc n) = omega arith

to_signed-to_unsigned_16 : (z : ℤ) → IsInt16 z → to_signed (2 ^ 16) (to_unsigned (2 ^ 16) z) ≡ z
to_signed-to_unsigned_16 (pos n) h =
    rw (lt→ltb (n % 2 ^ 16) (2 ^ 16 / 2) (omega arith)) (ap pos (omega arith))
to_signed-to_unsigned_16 (negsuc n) h =
    elim (Bool-cases (ltb (2 ^ 16 - 1 - n % 2 ^ 16) (2 ^ 16 / 2))) [
      | inl e ↦ absurd (omega (arith, ltb→lt _ _ e, h))
      | inr e ↦ rw e (ap negsuc (omega arith))
    ]

to_unsigned-lt_16 : (z : ℤ) → to_unsigned (2 ^ 16) z < 2 ^ 16
to_unsigned-lt_16 (pos n) = omega arith
to_unsigned-lt_16 (negsuc n) = omega arith

bytes_lem_16 : (u : ℕ) → u < 2 ^ 16 → u / 2 ^ 8 % 256 * 256 + u % 256 ≡ u
bytes_lem_16 u h = omega arith

to_signed-IsInt32 : (u : ℕ) → u < 2 ^ 32 → IsInt32 (to_signed (2 ^ 32) u)
to_signed-IsInt32 u h = elim (Bool-cases (ltb u (2 ^ 32 / 2))) [
  | inl e ↦ rw e (omega (arith, ltb→lt _ _ e))
  | inr e ↦ rw e (ground arith)
]

pub big_endian-EndianLaws : EndianLaws big_endian
unfolding big_endian
big_endian-EndianLaws = record {
  store_size = λ z. refl;
  read_back = λ z h. (
    _,
    _,
    _,
    _,
    refl,
    ap (to_signed (2 ^ 32)) (bytes_lem (to_unsigned (2 ^ 32) z) (to_unsigned-lt z))
        ∙ to_signed-to_unsigned z h,
  );
  read_back_16 = λ z h. (
    _,
    _,
    refl,
    ap (to_signed (2 ^ 16)) (bytes_lem_16 (to_unsigned (2 ^ 16) z) (to_unsigned-lt_16 z))
        ∙ to_signed-to_unsigned_16 z h,
  );
  load_range = λ a b c d ha hb hc hd. to_signed-IsInt32 (load_big_u32 a b c d) (omega arith);
}
