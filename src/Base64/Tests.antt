-- ===== src/Base64/Tests.antt =====
-- Runs of base64.
use nativepg.Prelude.{codes, ◌≡◌, refl, true, [], ◌∷◌, none, some, arith}
use nativepg.Base64.{tab, alphabet, encode, base64_encode, base64_decode}
use nativepg.Base64.RoundTrip.{base64_decode-encode}
use nativepg.Base64.Safety.{Answered, base64_decode-Answered, high_character_leaves_table}

-- "fo" is "Zm8=".
encode_fo : encode (102 ∷ 111 ∷ []) ≡ codes "Zm8="
unfolding encode tab alphabet
encode_fo = refl

base64_decode-encode_example :
    (base64_encode (102 ∷ 111 ∷ []) (1 ∷ []) ≡ some (1 ∷ encode (102 ∷ 111 ∷ [])))
    × (base64_decode true (encode (102 ∷ 111 ∷ [])) (2 ∷ []) ≡ some (none, 2 ∷ 102 ∷ 111 ∷ []))
base64_decode-encode_example =
    base64_decode-encode true (102 ∷ 111 ∷ []) (1 ∷ []) (2 ∷ []) (omega arith, (omega arith, tt))
      (omega arith)

-- A character that is not of the alphabet.
base64_decode-Answered_example :
    Answered (codes "Z!==") (7 ∷ []) (base64_decode true (codes "Z!==") (7 ∷ []))
base64_decode-Answered_example =
    base64_decode-Answered true (codes "Z!==") (7 ∷ [])
      (omega arith, (omega arith, (omega arith, (omega arith, tt)))) (omega arith)

high_character_leaves_table_example : base64_decode true (200 ∷ 90 ∷ 90 ∷ 90 ∷ []) [] ≡ none
high_character_leaves_table_example =
    high_character_leaves_table 200 90 90 90 [] [] (omega arith) (omega arith) refl
