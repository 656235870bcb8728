-- ===== src/Scram/Tests.antt =====
-- A run of SCRAM, with a toy for OpenSSL.
use nativepg.Prelude.{
  ℕ, ◌+◌, ◌*◌, ◌%◌, ◌≡◌, refl, ap, ap₂, Bool, true, List, [], ◌∷◌, ◌++◌, none, some, inl, inr, All,
  length-replicate, replicate, arith, ◌==◌, ==_iff, if◌then◌else◌, Bool-cases, ne_of_==, ◌↔◌,
}
use nativepg.Base64.{
  encode, tab, alphabet, base64_decode, decode, lookup, inverse_tab, get_padding, store, write_last,
  write_group, and_then, base64_encode, decoded_size, encoded_size,
}
use nativepg.Base64.RoundTrip.{IsByte}
use nativepg.Wire.{finalize_message, overwrite, serialization_context}
use nativepg.Wire.Integers.{big_endian, big_endian-EndianLaws}
use nativepg.CharConv.{from_chars, read_digits}
use nativepg.Scram.{OpenSsl, CryptLaws, ComparesBytes}
use nativepg.Scram.Crypt.{
  compute_proofs, compute_hi, compute_hmac, compute_hmac_of_two, compute_sha256, derive_proofs,
  hi_loop,
}
use nativepg.Scram.Messages.{
  ServerFirstMessage, parse_server_first, scram_is_printable, expect, nonce_part, take_nonce,
  salt_part, take_salt, iteration_part, serialize_proof, up_to_comma,
}
use nativepg.Scram.Fsm.{
  ScramSha256Fsm, on_server_first, on_server_final, answer, check_server_first, span_bytes,
  starts_with, scram_sha256_fsm,
}
use nativepg.Scram.Xor.{IsDigest}
use nativepg.Scram.Proofs.{Returns, client_proof, server_signature, compute_proofs-Returns, int_one}
use nativepg.Scram.Printed.{server_first_text, server_final_text}
use nativepg.Scram.Verified.{IsAnswer, on_server_first-IsAnswer}
use nativepg.Scram.Judged.{Judged, on_server_final-Judged}
use nativepg.Scram.ProofSizes.{WritesSizes}
use nativepg.Scram.InMemory.{stays_in_memory}
use nativepg.Connect.{Driver, DriverPoint, Driven, drive}
use nativepg.Connect.Progress.{Progress, drive-Progress}
use nativepg.ReadBuffer.{ReadBuffer, commit}
use nativepg.ReadBuffer.Areas.{BufferInv}
use nativepg.Scram.Session.{SessionSucceeds, session-Succeeds}
use nativepg.Startup.{
  scram_sha256_name, supports_scram_sha256, ConnectParams, ResumePoint, StartupFsm,
}
use nativepg.Parse
use nativepg.Parse.Views.{walk, string_traits}
use nativepg.Parse.Bodies.{parse_authentication_sasl}

abbrev sum : List ℕ → ℕ
sum [] = 0
sum (b ∷ bs) = b + 3 * sum bs

abbrev toy_hmac : List ℕ → List ℕ → List ℕ
toy_hmac key bytes = replicate 32 ((sum key + 7 * sum bytes) % 256)

abbrev toy_sha256 : List ℕ → List ℕ
toy_sha256 bytes = replicate 32 ((sum bytes + 5) % 256)

abbrev differs : List ℕ → List ℕ → ℕ
differs [] [] = 0
differs (a ∷ s) (b ∷ t) = let rest = differs s t in if a == b then rest else 1
differs _ _ = 1

-- The key and what was fed.
abbrev ToyState : Type 0
ToyState = List ℕ × List ℕ

abbrev fine : ToyState → Bool × ToyState
fine c = (true, c)

abbrev toy : OpenSsl ToyState
toy = record {
  mac_fetch = fine;
  mac_ctx_new = fine;
  mac_ctx_set_params = fine;
  mac_init = λ key c. (true, (key, []));
  mac_update = λ bytes c. (true, (c.0, c.1 ++ bytes));
  mac_final = λ c. (true, toy_hmac c.0 c.1, c);
  md_fetch = fine;
  md_ctx_new = fine;
  digest_init = λ c. (true, (c.0, []));
  digest_update = λ bytes c. (true, (c.0, c.1 ++ bytes));
  digest_final = λ c. (true, toy_sha256 c.1, c);
  rand_bytes = λ n c. (true, replicate n 7, c);
  get_error = λ c. (0, c);
  system_errno = λ code. none;
  memcmp = differs;
}

abbrev toy_laws : CryptLaws toy toy_hmac toy_sha256
toy_laws = record {
  IsReady = λ c. Unit {0};
  IsKeyed = λ key fed c. (c.0 ≡ key) × (c.1 ≡ fed);
  IsDigesting = λ fed c. c.1 ≡ fed;
  mac_setup = λ c. (refl, (refl, (refl, tt)));
  mac_init_lem = λ key c r. (refl, (refl, refl));
  mac_update_lem = λ key fed bytes c k. (refl, (k.0, ap (λ l. l ++ bytes) k.1));
  mac_final_lem = λ key fed c k. (refl, ap₂ toy_hmac k.0 k.1, tt);
  digest_setup = λ c r. (refl, (refl, (refl, refl)));
  digest_update_lem = λ fed bytes c k. (refl, ap (λ l. l ++ bytes) k);
  digest_final_lem = λ fed c k. (refl, ap toy_sha256 k, tt);
}

byte_lem : (n b : ℕ) → IsByte b → All IsByte (replicate n b)
byte_lem ℕ.zero b h = tt
byte_lem (ℕ.suc n) b h = (h, byte_lem n b h)

toy_digests : (key bytes : List ℕ) → IsDigest (toy_hmac key bytes)
toy_digests key bytes = (refl, byte_lem 32 ((sum key + 7 * sum bytes) % 256) (omega arith))

differs_lem : (s t : List ℕ) → (differs s t ≡ 0) ↔ (s ≡ t)
differs_lem [] [] = (λ h. refl, λ h. refl)
differs_lem [] (b ∷ t) = (λ h. absurd (omega (arith, h)), λ h. absurd cc)
differs_lem (a ∷ s) [] = (λ h. absurd (omega (arith, h)), λ h. absurd cc)
differs_lem (a ∷ s) (b ∷ t) =
    let ih = differs_lem s t in
    elim (Bool-cases (a == b)) [
      | inl e ↦
          rw e (
            λ h. ap₂ (λ x xs. x ∷ xs) ((==_iff a b).0 e) (ih.0 h),
            λ h. let q : s ≡ t = cc in ih.1 q,
          )
      | inr e ↦
          rw e
            (λ h. absurd (omega (arith, h)), λ h. let q : a ≡ b = cc in absurd (ne_of_== a b e q))
    ]

toy_compares : ComparesBytes toy
toy_compares s t e = differs_lem s t

-- "pw", a salt of three bytes and two rounds.
abbrev password : List ℕ
password = 112 ∷ 119 ∷ []

abbrev salt : List ℕ
salt = 1 ∷ 2 ∷ 255 ∷ []

abbrev fresh : ScramSha256Fsm
fresh = record { nonce = []; client_first_msg = (0, 0); server_signature = replicate 32 0 }

-- The server's message, with the nonce "ab" and an extension.
abbrev server_first : List ℕ
server_first = server_first_text (97 ∷ 98 ∷ []) salt (50 ∷ []) (44 ∷ 120 ∷ [])

compute_proofs-Returns_example :
    Returns
      (compute_proofs toy big_endian password salt 3 (1 ∷ 2 ∷ []) ([], []))
      (
        client_proof toy_hmac toy_sha256 (int_one big_endian) password salt 3 (1 ∷ 2 ∷ []),
        server_signature toy_hmac toy_sha256 (int_one big_endian) password salt 3 (1 ∷ 2 ∷ []),
      )
      (λ c. Unit {0})
compute_proofs-Returns_example =
    compute_proofs-Returns toy toy_hmac toy_sha256 toy_laws big_endian password salt 3 (1 ∷ 2 ∷ [])
      ([], [])

-- "SCRAM-SHA-256" alone.
abbrev offer : List ℕ
offer = scram_sha256_name ++ (0 ∷ 0 ∷ [])

offered : supports_scram_sha256 offer ≡ true
unfolding supports_scram_sha256 parse_authentication_sasl Parse.check Parse.get_string
    Parse.split_string walk string_traits
offered = refl

abbrev params : ConnectParams
params = record { username = 117 ∷ []; password = password; database = [] }

abbrev nonce_bytes : List ℕ
nonce_bytes = replicate 18 7

abbrev asked_to_log_in : StartupFsm (ScramSha256Fsm × ToyState)
asked_to_log_in = record {
  point = ResumePoint.initial;
  scram = (fresh, ([], []));
  write_buffer = [];
  backend_process_id = 0;
  backend_secret_key = 0;
}

session-Succeeds_example :
    SessionSucceeds toy toy_hmac toy_sha256 toy_laws toy_digests toy_compares big_endian
      big_endian-EndianLaws true params
      (encode nonce_bytes)
      (encode nonce_bytes ++ (98 ∷ []))
      salt
      2
      (server_first_text (encode nonce_bytes ++ (98 ∷ [])) salt (50 ∷ []) (44 ∷ 120 ∷ []))
      offer
      []
      (73 ∷ [])
      asked_to_log_in
unfolding scram_is_printable
session-Succeeds_example =
    session-Succeeds toy toy_hmac toy_sha256 toy_laws toy_digests toy_compares big_endian
      big_endian-EndianLaws true params nonce_bytes salt 98 [] 50 [] (44 ∷ 120 ∷ []) [] offer
      (73 ∷ []) asked_to_log_in ([], []) offered refl refl (byte_lem 18 7 (omega arith)) (refl, tt)
      (omega arith) (omega arith, (omega arith, (omega arith, tt))) (omega arith)
      ((omega arith, omega arith), tt) (omega arith) (omega arith) refl tt

abbrev wrong : List ℕ
wrong = replicate 32 1

-- A wrong signature.
on_server_final-Judged_example :
    Judged true fresh.server_signature
      (server_final_text wrong [])
      (on_server_final toy big_endian true (server_final_text wrong []) (fresh, ([], [])))
on_server_final-Judged_example =
    on_server_final-Judged toy big_endian true toy_compares fresh ([], [])
      (server_final_text wrong [])

-- A machine that has sent the nonce "a", of a message that was one byte.
abbrev waiting : ScramSha256Fsm
waiting = record { nonce = 97 ∷ []; client_first_msg = (0, 1); server_signature = [] }

answered :
    (written : List ℕ) × (left : ScramSha256Fsm × ToyState) × (on_server_first toy big_endian true
        server_first password
        (110 ∷ [])
        (waiting, ([], []))
      ≡ some (none, written, left))
unfolding on_server_first parse_server_first expect nonce_part take_nonce scram_is_printable
    salt_part take_salt encode tab alphabet base64_decode decode lookup inverse_tab get_padding
    store write_last write_group and_then base64_encode decoded_size encoded_size compute_hi
    compute_hmac compute_hmac_of_two compute_proofs compute_sha256 derive_proofs hi_loop answer
    check_server_first span_bytes starts_with from_chars iteration_part read_digits serialize_proof
    up_to_comma finalize_message overwrite serialization_context big_endian
answered = (_, _, refl)

on_server_first-IsAnswer_example :
    (msg : ServerFirstMessage) × (parse_server_first true server_first ≡ some (inr msg))
    × IsAnswer waiting msg
on_server_first-IsAnswer_example =
    on_server_first-IsAnswer toy big_endian true server_first password (110 ∷ []) answered.0 waiting
      answered.1.0 ([], []) answered.1.1 answered.2

toy_sizes : WritesSizes toy
toy_sizes = record { mac_final_size = λ c. refl; rand_bytes_size = λ n c. length-replicate n 7 }

-- A machine of startup_fsm that has sent the nonce, and an authentication_sasl_continue of which the
-- last bytes were read.
abbrev zeros : ℕ → List ℕ
zeros n = replicate n 0

abbrev read_machine : Driver (ScramSha256Fsm × ToyState)
read_machine = record {
  point = DriverPoint.received;
  impl = record {
    point = ResumePoint.read_continue;
    scram = (waiting, ([], []));
    write_buffer = 110 ∷ [];
    backend_process_id = 0;
    backend_secret_key = 0;
  };
}

abbrev buffer : ReadBuffer
buffer = record {
  size = 10;
  committed_offset = 0;
  prepared_offset = 8;
  memory = 82 ∷ 0 ∷ 0 ∷ 0 ∷ 9 ∷ 0 ∷ 0 ∷ 0 ∷ 11 ∷ 114 ∷ [];
}

buffer-BufferInv : BufferInv (commit buffer 2)
unfolding commit
buffer-BufferInv = record {
  ordered = omega arith;
  within = omega arith;
  block = refl;
  fits = omega arith;
}

drive-Progress_example :
    (r : Driven (scram_sha256_fsm toy big_endian true) big_endian params zeros) × (drive
        (scram_sha256_fsm toy big_endian true)
        big_endian
        params
        zeros
        read_machine
        buffer
        none
        2
      ≡ some r)
    × Progress
        (scram_sha256_fsm toy big_endian true)
        big_endian
        params
        zeros
        (stays_in_memory toy toy_sizes big_endian big_endian-EndianLaws true)
        big_endian-EndianLaws
        (λ n. length-replicate n 0)
        r
unfolding commit span_bytes
drive-Progress_example =
    drive-Progress (scram_sha256_fsm toy big_endian true) big_endian params zeros
      (stays_in_memory toy toy_sizes big_endian big_endian-EndianLaws true) big_endian-EndianLaws
      (λ n. length-replicate n 0) read_machine buffer none 2 tt buffer-BufferInv
      (
        omega arith,
        (
          omega arith,
          (
            omega arith,
            (
              omega arith,
              (
                omega arith,
                (omega arith, (omega arith, (omega arith, (omega arith, (omega arith, tt))))),
              ),
            ),
          ),
        ),
      )
      (
        omega arith,
        (
          omega arith,
          (
            omega arith,
            (
              omega arith,
              (
                omega arith,
                (omega arith, (omega arith, (omega arith, (omega arith, (omega arith, tt))))),
              ),
            ),
          ),
        ),
      )
      (omega arith)
