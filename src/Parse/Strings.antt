-- ===== src/Parse/Strings.antt =====
-- Strings that a 0 ends: what split_string finds.
use nativepg.Prelude.{
  ℕ, zero, suc, ◌+◌, ◌≡◌, refl, ap, List, [], ◌∷◌, ◌++◌, none, some, length, length-append, arith,
  All, ◌≢◌, ◌⊎◌, inl, inr, ◌∙◌, subst, sym, some_inj,
}
use nativepg.Parse.{split_string}

-- No byte is a 0.
abbrev pub NoZero : List ℕ → Type 0
NoZero = All (λ b. b ≢ 0)

pub split_string-append :
    (s rest : List ℕ) → NoZero s → split_string (s ++ (0 ∷ rest)) ≡ some (s, rest)
unfolding split_string
split_string-append [] rest h = refl
split_string-append (zero ∷ s) rest h = absurd (h.0 refl)
split_string-append (suc b ∷ s) rest h = rw (split_string-append s rest h.1) refl

-- A string is found, or there is none; a NULL in the middle is no option.
pub split_string-cases :
    (bytes : List ℕ)
    → (split_string bytes ≡ none)
      ⊎ ((s : List ℕ) × (rest : List ℕ) × (split_string bytes ≡ some (s, rest))
          × (bytes ≡ s ++ (0 ∷ rest))
          × NoZero s)
unfolding split_string
split_string-cases [] = inl refl
split_string-cases (zero ∷ bytes) = inr ([], bytes, refl, refl, tt)
split_string-cases (suc b ∷ bytes) = elim (split_string-cases bytes) [
  | inl e ↦ inl (rw e refl)
  | inr (s, rest, e, eq, nz) ↦
      inr (suc b ∷ s, rest, rw e refl, ap (λ l. suc b ∷ l) eq, (omega arith, nz))
]

pub split_string-eq-some :
    (bytes : List ℕ) {s rest : List ℕ}
    → split_string bytes ≡ some (s, rest)
    → (bytes ≡ s ++ (0 ∷ rest)) × NoZero s
split_string-eq-some bytes h = elim (split_string-cases bytes) [
  | inl e ↦ cc
  | inr (t, r, e, eq, nz) ↦
      subst (λ q. (bytes ≡ q.0 ++ (0 ∷ q.1)) × NoZero q.0) (some_inj (sym e ∙ h)) (eq, nz)
]

pub length-split_string :
    (bytes : List ℕ) {s rest : List ℕ}
    → split_string bytes ≡ some (s, rest)
    → length bytes ≡ length s + suc (length rest)
length-split_string bytes {s} {rest} h =
    ap length (split_string-eq-some bytes h).0 ∙ length-append s (0 ∷ rest)
