-- ===== src/Parse/Walks.antt =====
-- What parse accepts can be walked: data_row, row_description and negotiate_protocol_version of
-- src/messages.cpp against the forward_traits of their items.
use nativepg.Prelude.{
  ℕ, zero, suc, ◌<◌, ◌≤◌, ◌≡◌, refl, ap, ℤ, pos, negsuc, Bool, true, List, [], ◌∷◌, Option, none,
  some, inl, inr, if◌then◌else◌, length, take, drop, ltb, leb, ◌>>=◌, length-drop, arith,
  Bool-cases, subst,
}
use nativepg.Protocol.{client, protocol_value_error, incomplete_message}
use nativepg.Wire.{Endian}
use nativepg.Parse.{
  ParseContext, parse_context, incomplete, add_error, get_int32, check_size_and_advance, check,
}
use nativepg.Parse.Views.{ForwardTraits, walk, field_traits, column_value, column_end}
use nativepg.Parse.Sticky.{
  HasFailed, added, check_failed, get_int32_failed, check_size_failed, add_error_failed,
}
use nativepg.Parse.Bodies.{columns_loop, check_column}

-- From begin to end there are n items.
abbrev pub Walks : {T : Type 0} → ForwardTraits T → ℕ → List ℕ → ℕ → Type 0
Walks {T} traits fuel bytes n = (xs : List T) × (walk traits fuel bytes ≡ some xs) × (length xs ≡ n)

-- One item in front.
pub walk-cons :
    {T : Type 0} (traits : ForwardTraits T) (fuel : ℕ) (bytes rest : List ℕ) (x : T) (xs : List T)
    → 0 < length bytes
    → traits.dereference bytes ≡ some x
    → traits.advance bytes ≡ some rest
    → walk traits fuel rest ≡ some xs
    → walk traits (suc fuel) bytes ≡ some (x ∷ xs)
unfolding walk
walk-cons traits fuel [] rest x xs ne d a w = elim ne [ ]
walk-cons traits fuel (b ∷ bytes) rest x xs ne d a w = rw (d, a, w) refl

module _ (endian : Endian) where
  check_column_failed :
      (z : ℤ) (c : ParseContext) → HasFailed c → HasFailed (check_column endian z c).1
  check_column_failed (pos n) c h = check_size_failed n c h
  check_column_failed (negsuc zero) c h = h
  check_column_failed (negsuc (suc n)) c h = add_error_failed _ c h

  pub columns_loop_failed :
      (n : ℕ) (c : ParseContext) → HasFailed c → HasFailed (columns_loop endian n c).1
  unfolding columns_loop
  columns_loop_failed zero c h = h
  columns_loop_failed (suc n) c h =
      columns_loop_failed n _
        (check_column_failed (get_int32 endian c).0 _ (get_int32_failed endian c h))

  -- A loop that is checked at the end began without an error.
  columns_not_failed :
      (n : ℕ) (c : ParseContext) → check (columns_loop endian n c).1 ≡ none → ¬ HasFailed c
  columns_not_failed n c h f = check_failed _ (columns_loop_failed n c f) h

  column_step :
      (z : ℤ) (n fuel : ℕ) (rest : List ℕ)
      → length rest ≤ fuel
      → check (columns_loop endian n (check_column endian z (parse_context rest)).1).1 ≡ none
      → ((r : List ℕ)
          → length r ≤ fuel
          → check (columns_loop endian n (parse_context r)).1 ≡ none
          → Walks (field_traits endian) fuel r n)
      → (xs : List (Option (List ℕ))) × ((column_value z rest >>= λ x.
            column_end z rest >>= λ r. walk (field_traits endian) fuel r >>= λ xs. some (x ∷ xs))
          ≡ some xs)
        × (length xs ≡ suc n)
  unfolding check_size_and_advance add_error
  column_step (pos k) n fuel rest le h ih =
      let after : Bool → ParseContext = λ (b : Bool).
        (if b
          then incomplete (parse_context rest)
          else record { rest = drop k rest; err = none }) in
      elim (Bool-cases (ltb (length rest) k)) [
        | inl short ↦ absurd (
            columns_not_failed n (incomplete (parse_context rest))
              (subst (λ b. check (columns_loop endian n (after b)).1 ≡ none) short h)
              (added none (client incomplete_message)))
        | inr long ↦
            let h' = subst (λ b. check (columns_loop endian n (after b)).1 ≡ none) long h in
            let (xs, w, len) = ih (drop k rest) (omega (arith, length-drop k rest)) h' in
            let fits : leb k (length rest) ≡ true = ground arith in
            (some (take k rest) ∷ xs, rw (fits, w) refl, ap suc len)
      ]
  column_step (negsuc zero) n fuel rest le h ih =
      let (xs, w, len) = ih rest le h in (none ∷ xs, rw w refl, ap suc len)
  column_step (negsuc (suc k)) n fuel rest le h ih =
      absurd (columns_not_failed n _ h (added none (client protocol_value_error)))

  pub columns_walk :
      (n fuel : ℕ) (rest : List ℕ)
      → length rest ≤ fuel
      → check (columns_loop endian n (parse_context rest)).1 ≡ none
      → Walks (field_traits endian) fuel rest n
  unfolding columns_loop get_int32 walk field_traits check
  columns_walk zero fuel [] le h = ([], refl, refl)
  columns_walk zero fuel (b ∷ rest) le h = cc
  columns_walk (suc n) zero (a ∷ rest) le h = elim le [ ]
  columns_walk (suc n) (suc fuel) (a ∷ b ∷ c ∷ d ∷ rest) le h =
      column_step (endian.load_big_s32 a b c d) n fuel rest (omega arith) h
        λ r le' h'. columns_walk n fuel r le' h'
  columns_walk (suc n) fuel rest le h =
      absurd
        (columns_not_failed n _ h (check_size_failed 0 _ (added none (client incomplete_message))))
