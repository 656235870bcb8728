-- ===== src/Scram.antt =====
-- SCRAM-SHA-256: src/scram_sha256_fsm.cpp with src/nativepg_internal/scram_sha256_messages.hpp,
-- scram_sha256_crypt.hpp and openssl_error.cpp. This file is what the code uses of OpenSSL.
pub mod Crypt
pub mod Messages
pub mod Fsm
pub mod Xor
pub mod Proofs
pub mod Numbers
pub mod Printed
pub mod Serialized
pub mod Exchange
pub mod Verified
pub mod Judged
pub mod ProofSizes
pub mod ReadInside
pub mod InMemory
pub mod Login
pub mod Session
mod Tests
use nativepg.Prelude.{
  ℕ, ◌%◌, ◌^◌, ◌≡◌, ◌↔◌, Bool, true, List, [], ◌++◌, Option, none, some, length, if◌then◌else◌,
  ◌==◌,
}
use nativepg.Protocol.{Error, client, foreign, unknown_openssl_error}

-- The calls of OpenSSL, over a state that stands for its objects and its error queue: whether a
-- call succeeds, what it writes, and the state behind it. `system_errno` is the reason of a code
-- that is a system error, which is never 0.
pub record OpenSsl (C : Type 0) : Type 0 where
  pub mac_fetch : C → Bool × C
  pub mac_ctx_new : C → Bool × C
  pub mac_ctx_set_params : C → Bool × C
  pub mac_init : List ℕ → C → Bool × C
  pub mac_update : List ℕ → C → Bool × C
  pub mac_final : C → Bool × List ℕ × C
  pub md_fetch : C → Bool × C
  pub md_ctx_new : C → Bool × C
  pub digest_init : C → Bool × C
  pub digest_update : List ℕ → C → Bool × C
  pub digest_final : C → Bool × List ℕ × C
  pub rand_bytes : ℕ → C → Bool × List ℕ × C
  pub get_error : C → ℕ × C
  pub system_errno : ℕ → Option ℕ
  pub memcmp : List ℕ → List ℕ → ℕ

-- The code of a call that has failed.
unfoldable pub translate_openssl_error : Option ℕ → ℕ → Error
translate_openssl_error (some reason) code = foreign reason
translate_openssl_error none code =
    if code % 2 ^ 32 == 0 then client unknown_openssl_error else foreign (code % 2 ^ 32)

-- A call that succeeds, with a state for which something holds; and one that writes some bytes.
abbrev pub Succeeds : {C : Type 0} → Bool × C → (C → Type 0) → Type 0
Succeeds r P = (r.0 ≡ true) × P r.1

abbrev pub Writes : {C : Type 0} → List ℕ → Bool × List ℕ × C → (C → Type 0) → Type 0
Writes bytes r P = (r.0 ≡ true) × (r.1 ≡ bytes) × P r.2

-- What is documented of a message authentication code and a digest, where no call fails: from a
-- state where a MAC has been set up, the init call takes a key, the update calls what is to be
-- authenticated, and the final call writes the code of all of it; likewise for the digest, and
-- neither disturbs the other. The functions are HMAC-SHA-256 and SHA-256.
pub record CryptLaws {C : Type 0} (o : OpenSsl C) (hmac : List ℕ → List ℕ → List ℕ)
    (sha256 : List ℕ → List ℕ) : Type 1 where
  pub IsReady : C → Type 0
  pub IsKeyed : List ℕ → List ℕ → C → Type 0
  pub IsDigesting : List ℕ → C → Type 0
  pub mac_setup :
      (c : C)
      → Succeeds
          (o.mac_fetch c)
          (λ c1. Succeeds (o.mac_ctx_new c1) (λ c2. Succeeds (o.mac_ctx_set_params c2) IsReady))
  pub mac_init_lem :
      (key : List ℕ) (c : C) → IsReady c → Succeeds (o.mac_init key c) (IsKeyed key [])
  pub mac_update_lem :
      (key fed bytes : List ℕ) (c : C)
      → IsKeyed key fed c
      → Succeeds (o.mac_update bytes c) (IsKeyed key (fed ++ bytes))
  pub mac_final_lem :
      (key fed : List ℕ) (c : C) → IsKeyed key fed c → Writes (hmac key fed) (o.mac_final c) IsReady
  pub digest_setup :
      (c : C)
      → IsReady c
      → Succeeds
          (o.md_fetch c)
          (λ c1. Succeeds (o.md_ctx_new c1) (λ c2. Succeeds (o.digest_init c2) (IsDigesting [])))
  pub digest_update_lem :
      (fed bytes : List ℕ) (c : C)
      → IsDigesting fed c
      → Succeeds (o.digest_update bytes c) (IsDigesting (fed ++ bytes))
  pub digest_final_lem :
      (fed : List ℕ) (c : C) → IsDigesting fed c → Writes (sha256 fed) (o.digest_final c) IsReady

-- What is documented of CRYPTO_memcmp, on two areas of one size.
abbrev pub ComparesBytes : {C : Type 0} → OpenSsl C → Type 0
ComparesBytes o = (s t : List ℕ) → length s ≡ length t → (o.memcmp s t ≡ 0) ↔ (s ≡ t)
