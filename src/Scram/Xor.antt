-- ===== src/Scram/Xor.antt =====
-- compute_xor of src/nativepg_internal/scram_sha256_crypt.hpp: what was added twice is gone.
use nativepg.Prelude.{
  ℕ, suc, ◌<◌, Bool, true, ◌==◌, ◌≡◌, ltb, ltb→lt, refl, ap, ap₂, List, [], ◌∷◌, length, All,
  ==_iff, arith,
}
use Prim.Native.Nat.{bit_xor}
use nativepg.Base64.Tables.{all_below, all_below_lem}
use nativepg.Base64.RoundTrip.{IsByte}
use nativepg.Scram.Crypt.{compute_xor}

twice : ℕ → ℕ → Bool
twice a b = bit_xor (bit_xor a b) b == a

twice_table : all_below 256 (λ a. all_below 256 (λ b. twice a b)) ≡ true
unfolding all_below twice
twice_table = refl

bit_xor_twice : (a b : ℕ) → IsByte a → IsByte b → bit_xor (bit_xor a b) b ≡ a
unfolding twice
bit_xor_twice a b ha hb = (==_iff _ a).0 (
    all_below_lem 256 (twice a)
      (all_below_lem 256 (λ a. all_below 256 (λ b. twice a b)) twice_table a ha) b hb)

pub compute_xor_twice :
    (s t : List ℕ)
    → All IsByte s
    → All IsByte t
    → length s ≡ length t
    → compute_xor (compute_xor s t) t ≡ s
compute_xor_twice [] t hs ht e = refl
compute_xor_twice (a ∷ s) [] hs ht e = absurd (omega (arith, e))
compute_xor_twice (a ∷ s) (b ∷ t) (ha, hs) (hb, ht) e =
    ap₂ (λ x xs. x ∷ xs) (bit_xor_twice a b ha hb) (compute_xor_twice s t hs ht (omega (arith, e)))

stays : ℕ → ℕ → Bool
stays a b = ltb (bit_xor a b) 256

stays_table : all_below 256 (λ a. all_below 256 (λ b. stays a b)) ≡ true
unfolding all_below stays
stays_table = refl

bit_xor-lt : (a b : ℕ) → IsByte a → IsByte b → bit_xor a b < 256
unfolding stays
bit_xor-lt a b ha hb = ltb→lt _ 256 (
    all_below_lem 256 (stays a)
      (all_below_lem 256 (λ a. all_below 256 (λ b. stays a b)) stays_table a ha) b hb)

-- A digest: 32 bytes.
abbrev pub IsDigest : List ℕ → Type 0
IsDigest s = (length s ≡ 32) × All IsByte s

compute_xor-Bytes :
    (s t : List ℕ)
    → All IsByte s
    → All IsByte t
    → length s ≡ length t
    → (length (compute_xor s t) ≡ length s) × All IsByte (compute_xor s t)
compute_xor-Bytes [] t hs ht e = (refl, tt)
compute_xor-Bytes (a ∷ s) [] hs ht e = absurd (omega (arith, e))
compute_xor-Bytes (a ∷ s) (b ∷ t) (ha, hs) (hb, ht) e =
    let rest = compute_xor-Bytes s t hs ht (omega (arith, e)) in
    (ap suc rest.0, (bit_xor-lt a b ha hb, rest.1))

pub compute_xor-IsDigest : (s t : List ℕ) → IsDigest s → IsDigest t → IsDigest (compute_xor s t)
compute_xor-IsDigest s t (ls, hs) (lt, ht) =
    let both = compute_xor-Bytes s t hs ht (omega (arith, ls, lt)) in
    (omega (arith, both.0, ls), both.1)
