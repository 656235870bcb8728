-- ===== src/Scram/Crypt.antt =====
-- src/nativepg_internal/scram_sha256_crypt.hpp: the functions of RFC 5802 over OpenSSL. A digest is
-- its 32 bytes.
use nativepg.Prelude.{
  codes, ℕ, zero, suc, ◌-◌, ◌>>=◌ as ◌>>=ₒ◌, pos, Bool, ◌&&◌, List, [], ◌∷◌, Option, none, some,
  ◌⊎◌, inl, inr, if◌then◌else◌, length, ◌==◌,
}
use Prim.Native.Nat.{bit_xor}
use nativepg.Protocol.{Error, ErrorCode}
use nativepg.Base64.{base64_encode}
use nativepg.Wire.{Endian}
use nativepg.Scram.{OpenSsl, translate_openssl_error}

-- A function that returns an error_code, or else goes on with what it has written.
abbrev pub Crypt : Type 0 → Type 0 → Type 0
Crypt C A = C → (Error ⊎ A) × C

abbrev pub followed : {C A B : Type 0} → (A → Crypt C B) → (Error ⊎ A) × C → (Error ⊎ B) × C
followed f (inl e, c) = (inl e, c)
followed f (inr a, c) = f a c

infixl 5 ◌>>=◌
abbrev pub ◌>>=◌ : {C A B : Type 0} → Crypt C A → (A → Crypt C B) → Crypt C B
m >>= f = λ c. followed f (m c)

abbrev pub return : {C A : Type 0} → A → Crypt C A
return a = λ c. (inr a, c)

abbrev pub compute_xor : List ℕ → List ℕ → List ℕ
compute_xor [] rhs = []
compute_xor (l ∷ lhs) [] = []
compute_xor (l ∷ lhs) (r ∷ rhs) = bit_xor l r ∷ compute_xor lhs rhs

abbrev pub client_key_name : List ℕ
client_key_name = codes "Client Key"

abbrev pub server_key_name : List ℕ
server_key_name = codes "Server Key"

abbrev pub encoded_nonce : {C : Type 0} → (Error ⊎ List ℕ) × C → Option ((Error ⊎ List ℕ) × C)
encoded_nonce (inl e, c) = some (inl e, c)
encoded_nonce (inr raw, c) = base64_encode raw [] >>=ₒ λ encoded. some (inr encoded, c)

-- The code, and what is written to `output`.
abbrev pub sasl_prep : List ℕ → ErrorCode × List ℕ
sasl_prep input = (none, input)

abbrev pub prepared_or : ErrorCode × List ℕ → List ℕ → List ℕ
prepared_or (none, output) input = output
prepared_or (some ec, output) input = input

abbrev pub normalize_password : List ℕ → List ℕ
normalize_password input = prepared_or (sasl_prep input) input

module _ {C : Type 0} (o : OpenSsl C) where
  -- `return translate_openssl_error(ERR_get_error());`
  abbrev pub fail_call : {A : Type 0} → Crypt C A
  fail_call = λ c.
      let code = o.get_error c in
      (inl (translate_openssl_error (o.system_errno code.0) code.0), code.1)

  abbrev pub check_call : (C → Bool × C) → Crypt C (Unit {0})
  check_call call = λ c. let r = call c in if r.0 then (inr tt, r.1) else fail_call r.1

  abbrev pub output : (C → Bool × List ℕ × C) → Crypt C (List ℕ)
  output call = λ c. let r = call c in if r.0 then (inr r.1, r.2) else fail_call r.2

  unfoldable pub compute_hmac : List ℕ → List ℕ → Crypt C (List ℕ)
  compute_hmac key contents = do
    u ← check_call (o.mac_init key)
    v ← check_call (o.mac_update contents)
    output o.mac_final

  -- The variant with two data pieces.
  unfoldable pub compute_hmac_of_two : List ℕ → List ℕ → List ℕ → Crypt C (List ℕ)
  compute_hmac_of_two key data1 data2 = do
    u ← check_call (o.mac_init key)
    v ← check_call (o.mac_update data1)
    w ← check_call (o.mac_update data2)
    output o.mac_final

  -- The loop of compute_hi, that many times.
  unfoldable pub hi_loop : ℕ → List ℕ → List ℕ → List ℕ → Crypt C (List ℕ)
  hi_loop zero str ucurrent hi = return hi
  hi_loop (suc n) str ucurrent hi = do
    unext ← compute_hmac str ucurrent
    hi_loop n str unext (compute_xor hi unext)

  unfoldable pub compute_sha256 : List ℕ → Crypt C (List ℕ)
  compute_sha256 contents = do
    md ← check_call o.md_fetch
    ctx ← check_call o.md_ctx_new
    u ← check_call o.digest_init
    v ← check_call (o.digest_update contents)
    output o.digest_final

  unfoldable pub compute_hi : Endian → List ℕ → List ℕ → ℕ → Crypt C (List ℕ)
  compute_hi endian str salt iteration_count = do
    u1 ← compute_hmac_of_two str salt (endian.store_big_s32 (pos 1))
    hi_loop (iteration_count - 1) str u1 u1

  -- The client's proof and the server's signature, of a salted password.
  unfoldable pub derive_proofs : List ℕ → List ℕ → Crypt C (List ℕ × List ℕ)
  derive_proofs salted_password auth_message = do
    client_key ← compute_hmac salted_password client_key_name
    stored_key ← compute_sha256 client_key
    client_signature ← compute_hmac stored_key auth_message
    server_key ← compute_hmac salted_password server_key_name
    server_signature ← compute_hmac server_key auth_message
    return (compute_xor client_key client_signature, server_signature)

  unfoldable pub compute_proofs : Endian → List ℕ → List ℕ → ℕ → List ℕ → Crypt C (List ℕ × List ℕ)
  compute_proofs endian password salt iteration_count auth_message = do
    mac ← check_call o.mac_fetch
    ctx ← check_call o.mac_ctx_new
    set ← check_call o.mac_ctx_set_params
    salted_password ← compute_hi endian (normalize_password password) salt iteration_count
    derive_proofs salted_password auth_message

  -- 18 random bytes in base64; `none` is a store outside of the vector.
  unfoldable pub generate_nonce : C → Option ((Error ⊎ List ℕ) × C)
  generate_nonce c = encoded_nonce (output (o.rand_bytes 18) c)

  unfoldable pub crypto_equal : List ℕ → List ℕ → Bool
  crypto_equal lhs rhs = (length lhs == length rhs) && (o.memcmp lhs rhs == 0)
