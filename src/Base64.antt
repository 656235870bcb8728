-- ===== src/Base64.antt =====
-- src/nativepg_internal/base64.cpp: base64, for SCRAM. A byte is a number below 256; a mask followed
-- by a shift is a quotient or a remainder.
pub mod Tables
pub mod RoundTrip
pub mod Safety
mod Tests
use nativepg.Prelude.{
  zero, suc, ℕ, ◌+◌, ◌-◌, ◌*◌, ◌/◌, ◌%◌, ◌^◌, Bool, true, false, List, [], ◌∷◌, ◌++◌, Option, none,
  some, if◌then◌else◌, length, get_elem?, replicate, ltb, leb, ◌==◌, ◌>>=◌,
}
use nativepg.Protocol.{ErrorCode, client, invalid_base64}

-- The characters from `first` on, `n` of them.
abbrev pub run : ℕ → ℕ → List ℕ
run zero first = []
run (suc n) first = first ∷ run n (suc first)

-- 'A' to 'Z', 'a' to 'z', '0' to '9', '+', '/'.
unfoldable pub alphabet : List ℕ
alphabet = run 26 b'A' ++ (run 26 b'a' ++ (run 10 b'0' ++ (b'+' ∷ b'/' ∷ [])))

-- Behind the characters of the literal stands its terminator.
unfoldable pub tab : ℕ → ℕ
tab i = elim (get_elem? alphabet i) [ some c ↦ c | none ↦ 0 ]

-- The entries of inverse_tab: `none` for -1.
abbrev pub invalid : ℕ → List (Option ℕ)
invalid n = replicate n none

abbrev pub values : ℕ → ℕ → List (Option ℕ)
values zero first = []
values (suc n) first = some first ∷ values n (suc first)

unfoldable pub inverse_tab : List (Option ℕ)
inverse_tab =
    invalid 43
    ++ (values 1 62
        ++ (invalid 3
            ++ (values 1 63
                ++ (values 10 52
                    ++ (invalid 7
                        ++ (values 26 0
                            ++ (invalid 6 ++ (values 26 26 ++ (invalid 5 ++ invalid 128)))))))))

-- The conversion of a char to std::size_t extends the sign, where char is signed.
abbrev pub char_index : Bool → ℕ → ℕ
char_index signed_char c = if signed_char then (if ltb c 128 then c else 2 ^ 64 - 256 + c) else c

-- The read of inverse_tab at a character: none where it is outside the table.
unfoldable pub lookup : Bool → ℕ → Option (Option ℕ)
lookup signed_char c = get_elem? inverse_tab (char_index signed_char c)

unfoldable pub encoded_size : List ℕ → ℕ
encoded_size input = 4 * ((length input + 2) % 2 ^ 64 / 3) % 2 ^ 64

abbrev pub equals_sign : ℕ
equals_sign = b'='

abbrev pub bit : Bool → ℕ
bit true = 1
bit false = 0

-- On at least four characters.
unfoldable pub get_padding : List ℕ → ℕ
get_padding [] = 0
get_padding (c ∷ []) = 0
get_padding (c ∷ d ∷ []) = bit (d == equals_sign) + bit (c == equals_sign)
get_padding (c ∷ d ∷ e ∷ cs) = get_padding (d ∷ e ∷ cs)

unfoldable pub decoded_size : List ℕ → ℕ
decoded_size [] = 0
decoded_size (c ∷ cs) = length (c ∷ cs) * 3 % 2 ^ 64 / 4 - get_padding (c ∷ cs)

unfoldable pub encode : List ℕ → List ℕ
encode [] = []
encode (a ∷ []) = tab (a / 4) ∷ tab (a % 4 * 16) ∷ equals_sign ∷ equals_sign ∷ []
encode (a ∷ b ∷ []) = tab (a / 4) ∷ tab (a % 4 * 16 + b / 16) ∷ tab (b % 16 * 4) ∷ equals_sign ∷ []
encode (a ∷ b ∷ c ∷ bytes) =
    tab (a / 4)
    ∷ tab (a % 4 * 16 + b / 16)
    ∷ tab (c / 64 + b % 16 * 4)
    ∷ tab (c % 64)
    ∷ encode bytes

-- Whether decode ended well, and the bytes that it has written.
abbrev pub Decoded : Type 0
Decoded = Bool × List ℕ

abbrev pub first_byte : ℕ → ℕ → ℕ
first_byte v0 v1 = (v0 * 4 + v1 / 16) % 256

abbrev pub second_byte : ℕ → ℕ → ℕ
second_byte v1 v2 = (v1 % 16 * 16 + v2 / 4) % 256

abbrev pub third_byte : ℕ → ℕ → ℕ
third_byte v2 v3 = (v2 % 4 * 64 + v3) % 256

-- The body of the loop, on the four values looked up.
unfoldable pub write_group : Option ℕ → Option ℕ → Option ℕ → Option ℕ → Decoded
write_group (some v0) (some v1) (some v2) (some v3) =
    (true, first_byte v0 v1 ∷ second_byte v1 v2 ∷ third_byte v2 v3 ∷ [])
write_group _ _ _ _ = (false, [])

-- The last group, by its padding.
unfoldable pub write_last : ℕ → Option ℕ → Option ℕ → Option ℕ → Option ℕ → Decoded
write_last padding (some v0) (some v1) (some v2) (some v3) = (
  true,
  first_byte v0 v1
      ∷ ((if ltb padding 2 then second_byte v1 v2 ∷ [] else [])
          ++ (if padding == 0 then third_byte v2 v3 ∷ [] else [])),
)
write_last _ _ _ _ _ = (false, [])

-- The bytes of a group before those of the rest.
unfoldable pub and_then : Decoded → Option Decoded → Option Decoded
and_then (false, bytes) more = some (false, bytes)
and_then (true, bytes) more = do r ← more; some (r.0, bytes ++ r.1)

module _ (signed_char : Bool) where
  decode_group : ℕ → ℕ → ℕ → ℕ → Option Decoded
  decode_group a b c d = do
    v0 ← lookup signed_char a
    v1 ← lookup signed_char b
    v2 ← lookup signed_char c
    v3 ← lookup signed_char d
    some (write_group v0 v1 v2 v3)

  decode_last : ℕ → ℕ → ℕ → ℕ → Option Decoded
  decode_last a b c d =
      let padding = get_padding (a ∷ b ∷ c ∷ d ∷ []) in
      do
        v0 ← lookup signed_char a
        v1 ← lookup signed_char b
        v2 ← if padding == 2 then some (some 0) else lookup signed_char c
        v3 ← if ltb 0 padding then some (some 0) else lookup signed_char d
        some (write_last padding v0 v1 v2 v3)

  -- The size is a multiple of 4. `none` is a read outside the table.
  unfoldable pub decode : List ℕ → Option Decoded
  unfolding decode_group decode_last
  decode (a ∷ b ∷ c ∷ d ∷ []) = decode_last a b c d
  decode (a ∷ b ∷ c ∷ d ∷ e ∷ cs) = do r ← decode_group a b c d; and_then r (decode (e ∷ cs))
  decode _ = some (true, [])

-- Bytes stored into the `n` zeros that a vector is extended by: none where they do not fit.
unfoldable pub store : List ℕ → ℕ → List ℕ → Option (List ℕ)
store to n bytes =
    if leb (length bytes) n then some (to ++ (bytes ++ replicate (n - length bytes) 0)) else none

unfoldable pub base64_encode : List ℕ → List ℕ → Option (List ℕ)
base64_encode input to = store to (encoded_size input) (encode input)

-- The code, and the vector.
unfoldable pub base64_decode : Bool → List ℕ → List ℕ → Option (ErrorCode × List ℕ)
base64_decode signed_char input output =
    let decoded : Option (ErrorCode × List ℕ) = do
      r ← decode signed_char input
      stored ← store output (decoded_size input) r.1
      some (if r.0 then none else some (client invalid_base64), stored)
    in if length input % 4 == 0 then decoded else some (some (client invalid_base64), output)
