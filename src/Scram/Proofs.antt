-- ===== src/Scram/Proofs.antt =====
-- src/nativepg_internal/scram_sha256_crypt.hpp: what is computed is what RFC 5802 defines.
use nativepg.Prelude.{
  ℕ, zero, suc, ◌+◌, ◌-◌, ◌≡◌, refl, ap, subst, pos, List, [], ◌++◌, Bool, ◌⊎◌, inl, inr, arith,
}
use nativepg.Protocol.{Error}
use nativepg.Wire.{Endian}
use nativepg.Scram.{OpenSsl, CryptLaws, Succeeds, Writes}
use nativepg.Scram.Crypt.{
  Crypt, followed, compute_xor, client_key_name, server_key_name, check_call, output, compute_hmac,
  compute_hmac_of_two, hi_loop, compute_sha256, compute_hi, derive_proofs, compute_proofs,
}

-- INT(1), of four octets.
abbrev pub int_one : Endian → List ℕ
int_one endian = endian.store_big_s32 (pos 1)

-- The algorithm of section 3 of RFC 5802.
module _ (hmac : List ℕ → List ℕ → List ℕ) (sha256 : List ℕ → List ℕ) (int1 : List ℕ) where
  -- U1 at 0, U2 at 1, …
  abbrev pub U : List ℕ → List ℕ → ℕ → List ℕ
  U str salt zero = hmac str (salt ++ int1)
  U str salt (suc n) = hmac str (U str salt n)

  -- U1 XOR … XOR U(n + 1)
  abbrev pub sum_of : List ℕ → List ℕ → ℕ → List ℕ
  sum_of str salt zero = U str salt zero
  sum_of str salt (suc n) = compute_xor (sum_of str salt n) (U str salt (suc n))

  abbrev pub salted_password : List ℕ → List ℕ → ℕ → List ℕ
  salted_password password salt i = sum_of password salt (i - 1)

  abbrev pub client_key : List ℕ → List ℕ → ℕ → List ℕ
  client_key password salt i = hmac (salted_password password salt i) client_key_name

  abbrev pub stored_key : List ℕ → List ℕ → ℕ → List ℕ
  stored_key password salt i = sha256 (client_key password salt i)

  abbrev pub client_proof : List ℕ → List ℕ → ℕ → List ℕ → List ℕ
  client_proof password salt i auth_message =
      compute_xor (client_key password salt i) (hmac (stored_key password salt i) auth_message)

  abbrev pub server_signature : List ℕ → List ℕ → ℕ → List ℕ → List ℕ
  server_signature password salt i auth_message =
      hmac (hmac (salted_password password salt i) server_key_name) auth_message

-- A run that ends without error, with a value and a state for which something holds.
abbrev pub Returns : {C A : Type 0} → (Error ⊎ A) × C → A → (C → Type 0) → Type 0
Returns r a P = (r.0 ≡ inr a) × P r.1

module _ {C A B : Type 0} where
  followed-Returns :
      (f : A → Crypt C B) (r : (Error ⊎ A) × C) (a : A) (b : B) (P Q : C → Type 0)
      → Returns r a P
      → ((c : C) → P c → Returns (f a c) b Q)
      → Returns (followed f r) b Q
  followed-Returns f (inl e, c) a b P Q (h, p) k = absurd cc
  followed-Returns f (inr x, c) a b P Q (h, p) k = subst (λ y. Returns (f y c) b Q) (cc) (k c p)

module _ {C : Type 0} (o : OpenSsl C) where
  check-Returns :
      (call : C → Bool × C) (c : C) (P : C → Type 0)
      → Succeeds (call c) P
      → Returns (check_call o call c) tt P
  check-Returns call c P (h, p) = rw h (refl, p)

  output-Returns :
      (call : C → Bool × List ℕ × C) (c : C) (bytes : List ℕ) (P : C → Type 0)
      → Writes bytes (call c) P
      → Returns (output o call c) bytes P
  output-Returns call c bytes P (h, w, p) = rw h (ap inr w, p)

  check_then :
      {B : Type 0} (call : C → Bool × C) (f : Unit {0} → Crypt C B) (c : C) (b : B)
      (P Q : C → Type 0)
      → Succeeds (call c) P
      → ((c : C) → P c → Returns (f tt c) b Q)
      → Returns (followed f (check_call o call c)) b Q
  check_then call f c b P Q s k =
      followed-Returns f (check_call o call c) tt b P Q (check-Returns call c P s) k

module _ {C : Type 0} (o : OpenSsl C) (hmac : List ℕ → List ℕ → List ℕ) (sha256 : List ℕ → List ℕ)
    (laws : CryptLaws o hmac sha256) where
  hmac-Returns :
      (key bytes : List ℕ) (c : C)
      → laws.IsReady c
      → Returns (compute_hmac o key bytes c) (hmac key bytes) laws.IsReady
  unfolding compute_hmac
  hmac-Returns key bytes c r =
      check_then o (o.mac_init key) _ c _ (laws.IsKeyed key []) laws.IsReady
        (laws.mac_init_lem key c r)
        (λ c1 k1.
          check_then o (o.mac_update bytes) _ c1 _ (laws.IsKeyed key bytes) laws.IsReady
            (laws.mac_update_lem key [] bytes c1 k1)
            (λ c2 k2.
              output-Returns o o.mac_final c2 _ laws.IsReady (laws.mac_final_lem key bytes c2 k2)))

  hmac_of_two-Returns :
      (key data1 data2 : List ℕ) (c : C)
      → laws.IsReady c
      → Returns (compute_hmac_of_two o key data1 data2 c) (hmac key (data1 ++ data2)) laws.IsReady
  unfolding compute_hmac_of_two
  hmac_of_two-Returns key data1 data2 c r =
      check_then o (o.mac_init key) _ c _ (laws.IsKeyed key []) laws.IsReady
        (laws.mac_init_lem key c r)
        (λ c1 k1.
          check_then o (o.mac_update data1) _ c1 _ (laws.IsKeyed key data1) laws.IsReady
            (laws.mac_update_lem key [] data1 c1 k1)
            (λ c2 k2.
              check_then o (o.mac_update data2) _ c2 _ (laws.IsKeyed key (data1 ++ data2))
                laws.IsReady (laws.mac_update_lem key data1 data2 c2 k2)
                (λ c3 k3.
                  output-Returns o o.mac_final c3 _ laws.IsReady
                    (laws.mac_final_lem key (data1 ++ data2) c3 k3))))

  sha256-Returns :
      (bytes : List ℕ) (c : C)
      → laws.IsReady c
      → Returns (compute_sha256 o bytes c) (sha256 bytes) laws.IsReady
  unfolding compute_sha256
  sha256-Returns bytes c r =
      check_then o o.md_fetch _ c _ _ laws.IsReady (laws.digest_setup c r) (λ c1 s1.
        check_then o o.md_ctx_new _ c1 _ _ laws.IsReady s1 (λ c2 s2.
          check_then o o.digest_init _ c2 _ (laws.IsDigesting []) laws.IsReady s2 (λ c3 k3.
            check_then o (o.digest_update bytes) _ c3 _ (laws.IsDigesting bytes) laws.IsReady
              (laws.digest_update_lem [] bytes c3 k3)
              (λ c4 k4.
                output-Returns o o.digest_final c4 _ laws.IsReady
                  (laws.digest_final_lem bytes c4 k4)))))

  derive-Returns :
      (salted auth_message : List ℕ) (c : C)
      → laws.IsReady c
      → Returns
          (derive_proofs o salted auth_message c)
          (
            compute_xor
                (hmac salted client_key_name)
                (hmac (sha256 (hmac salted client_key_name)) auth_message),
            hmac (hmac salted server_key_name) auth_message,
          )
          laws.IsReady
  unfolding derive_proofs
  derive-Returns salted auth_message c r =
      let key = hmac salted client_key_name in
      let stored = sha256 key in
      let server = hmac salted server_key_name in
      followed-Returns _ (compute_hmac o salted client_key_name c) key _ laws.IsReady laws.IsReady
        (hmac-Returns salted client_key_name c r)
        (λ c1 r1.
          followed-Returns _ (compute_sha256 o key c1) stored _ laws.IsReady laws.IsReady
            (sha256-Returns key c1 r1)
            (λ c2 r2.
              followed-Returns _ (compute_hmac o stored auth_message c2) _ _ laws.IsReady
                laws.IsReady (hmac-Returns stored auth_message c2 r2)
                (λ c3 r3.
                  followed-Returns _ (compute_hmac o salted server_key_name c3) server _
                    laws.IsReady laws.IsReady (hmac-Returns salted server_key_name c3 r3)
                    (λ c4 r4.
                      followed-Returns _ (compute_hmac o server auth_message c4) _ _ laws.IsReady
                        laws.IsReady (hmac-Returns server auth_message c4 r4)
                        (λ c5 r5. (refl, r5))))))

  module _ (endian : Endian) where
    hi_loop-Returns :
        (n k m : ℕ) (str salt : List ℕ) (c : C)
        → n + k ≡ m
        → laws.IsReady c
        → Returns
            (hi_loop o n str
              (U hmac sha256 (int_one endian) str salt k)
              (sum_of hmac sha256 (int_one endian) str salt k)
              c)
            (sum_of hmac sha256 (int_one endian) str salt m)
            laws.IsReady
    unfolding hi_loop
    hi_loop-Returns zero k m str salt c e r =
        let q : k ≡ m = omega (arith, e) in
        (ap (λ l. inr (sum_of hmac sha256 (int_one endian) str salt l)) q, r)
    hi_loop-Returns (suc n) k m str salt c e r =
        followed-Returns _ (compute_hmac o str (U hmac sha256 (int_one endian) str salt k) c) _ _
          laws.IsReady laws.IsReady
          (hmac-Returns str (U hmac sha256 (int_one endian) str salt k) c r)
          (λ c1 r1. hi_loop-Returns n (suc k) m str salt c1 (omega (arith, e)) r1)

    hi-Returns :
        (str salt : List ℕ) (i : ℕ) (c : C)
        → laws.IsReady c
        → Returns
            (compute_hi o endian str salt i c)
            (salted_password hmac sha256 (int_one endian) str salt i)
            laws.IsReady
    unfolding compute_hi
    hi-Returns str salt i c r =
        followed-Returns _ (compute_hmac_of_two o str salt (int_one endian) c) _ _ laws.IsReady
          laws.IsReady (hmac_of_two-Returns str salt (int_one endian) c r)
          (λ c1 r1. hi_loop-Returns (i - 1) 0 (i - 1) str salt c1 (omega arith) r1)

    -- Where the calls of OpenSSL succeed and are HMAC-SHA-256 and SHA-256: for every password, salt,
    -- count and message, compute_proofs ends without error, after as many rounds as are asked for,
    -- and with the ClientProof and the ServerSignature that RFC 5802 defines.
    pub compute_proofs-Returns :
        (password salt : List ℕ) (i : ℕ) (auth_message : List ℕ) (c : C)
        → Returns
            (compute_proofs o endian password salt i auth_message c)
            (
              client_proof hmac sha256 (int_one endian) password salt i auth_message,
              server_signature hmac sha256 (int_one endian) password salt i auth_message,
            )
            laws.IsReady
    unfolding compute_proofs
    compute_proofs-Returns password salt i auth_message c =
        check_then o o.mac_fetch _ c _ _ laws.IsReady (laws.mac_setup c) (λ c1 s1.
          check_then o o.mac_ctx_new _ c1 _ _ laws.IsReady s1 (λ c2 s2.
            check_then o o.mac_ctx_set_params _ c2 _ laws.IsReady laws.IsReady s2 (λ c3 r3.
              followed-Returns _ (compute_hi o endian password salt i c3) _ _ laws.IsReady
                laws.IsReady (hi-Returns password salt i c3 r3)
                (λ c4 r4.
                  derive-Returns (salted_password hmac sha256 (int_one endian) password salt i)
                    auth_message c4 r4))))
