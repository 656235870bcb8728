-- ===== src/Scram/ProofSizes.antt =====
-- src/nativepg_internal/scram_sha256_crypt.hpp: the sizes of what compute_proofs computes, whichever
-- calls of OpenSSL fail.
use nativepg.Prelude.{ℕ, ◌≤◌, ◌≡◌, List, [], ◌∷◌, ◌⊎◌, inl, inr, length, arith, Bool-cases}
use nativepg.Protocol.{Error}
use nativepg.Wire.{Endian}
use nativepg.Scram.{OpenSsl}
use nativepg.Scram.Crypt.{
  Crypt, followed, check_call, output, compute_hmac, compute_sha256, compute_xor, compute_proofs,
  compute_hi, derive_proofs,
}

-- What is written has its size: a digest is an array of 32 bytes, and RAND_bytes fills what it is
-- asked to.
pub record WritesSizes {C : Type 0} (o : OpenSsl C) : Type 0 where
  pub mac_final_size : (c : C) → length (o.mac_final c).1 ≡ 32
  pub rand_bytes_size : (n : ℕ) (c : C) → length (o.rand_bytes n c).1 ≡ n

-- Where a function of OpenSSL's ends well, its result has P.
abbrev pub Results : {C A : Type 0} → (A → Type 0) → (Error ⊎ A) × C → Type 0
Results P (inl e, c) = Unit {0}
Results P (inr a, c) = P a

module _ {C : Type 0} where
  then-Results :
      {A B : Type 0} (Q : A → Type 0) (P : B → Type 0) (r : (Error ⊎ A) × C) (k : A → Crypt C B)
      → Results Q r
      → ((a : A) (c : C) → Q a → Results P (k a c))
      → Results P (followed k r)
  then-Results Q P (inl e, c) k q h = tt
  then-Results Q P (inr a, c) k q h = h a c q

  any-Results :
      {A B : Type 0} (P : B → Type 0) (r : (Error ⊎ A) × C) (k : A → Crypt C B)
      → ((a : A) (c : C) → Results P (k a c))
      → Results P (followed k r)
  any-Results P (inl e, c) k h = tt
  any-Results P (inr a, c) k h = h a c

abbrev pub IsShort : List ℕ → Type 0
IsShort s = length s ≤ 32

compute_xor-length : (s t : List ℕ) → length (compute_xor s t) ≤ length s
compute_xor-length [] t = omega arith
compute_xor-length (a ∷ s) [] = omega arith
compute_xor-length (a ∷ s) (b ∷ t) = omega (arith, compute_xor-length s t)

module _ {C : Type 0} (o : OpenSsl C) (sizes : WritesSizes o) where
  output-IsShort : (c : C) → Results IsShort (output o o.mac_final c)
  output-IsShort c = elim (Bool-cases (o.mac_final c).0) [
    | inl y ↦ rw y (omega (arith, sizes.mac_final_size c))
    | inr n ↦ rw n tt
  ]

  compute_hmac-IsShort :
      (key contents : List ℕ) (c : C) → Results IsShort (compute_hmac o key contents c)
  unfolding compute_hmac
  compute_hmac-IsShort key contents c =
      any-Results IsShort (check_call o (o.mac_init key) c) _ (λ u c1.
        any-Results IsShort (check_call o (o.mac_update contents) c1) _ (λ v c2. output-IsShort c2))

  abbrev ShortProof : List ℕ × List ℕ → Type 0
  ShortProof r = IsShort r.0

  derive_proofs-ShortProof :
      (salted auth : List ℕ) (c : C) → Results ShortProof (derive_proofs o salted auth c)
  unfolding derive_proofs
  derive_proofs-ShortProof salted auth c =
      then-Results IsShort ShortProof (compute_hmac o salted _ c) _
        (compute_hmac-IsShort salted _ c)
        (λ client_key c1 short.
          any-Results ShortProof (compute_sha256 o client_key c1) _ (λ stored c2.
            any-Results ShortProof (compute_hmac o stored auth c2) _ (λ signed c3.
              any-Results ShortProof (compute_hmac o salted _ c3) _ (λ server c4.
                any-Results ShortProof (compute_hmac o server auth c4) _
                  (λ s c5. omega (arith, short, compute_xor-length client_key signed))))))

  pub compute_proofs-ShortProof :
      (endian : Endian) (password salt : List ℕ) (n : ℕ) (auth : List ℕ) (c : C)
      → Results ShortProof (compute_proofs o endian password salt n auth c)
  unfolding compute_proofs
  compute_proofs-ShortProof endian password salt n auth c =
      any-Results ShortProof (check_call o o.mac_fetch c) _ (λ u c1.
        any-Results ShortProof (check_call o o.mac_ctx_new c1) _ (λ v c2.
          any-Results ShortProof (check_call o o.mac_ctx_set_params c2) _ (λ w c3.
            any-Results ShortProof (compute_hi o endian _ salt n c3) _
              (λ salted c4. derive_proofs-ShortProof salted auth c4))))
