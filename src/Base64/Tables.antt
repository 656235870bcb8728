-- ===== src/Base64/Tables.antt =====
-- The two tables of base64.cpp.
use nativepg.Prelude.{
  ℕ, zero, suc, ◌<◌, ◌≡◌, ◌∙◌, refl, sym, ap, Bool, true, false, not, Option, none, some, inl, inr,
  arith, ltb, leb, ◌==◌, ◌&&◌, ◌||◌, ==_iff, Bool-cases, get_elem?, subst,
}
use nativepg.Base64.{alphabet, tab, inverse_tab, lookup, char_index, equals_sign}

unfoldable pub all_below : ℕ → (ℕ → Bool) → Bool
all_below zero p = true
all_below (suc n) p = p n && all_below n p

pub &&-true : (a b : Bool) → (a && b) ≡ true → (a ≡ true) × (b ≡ true)
&&-true true b h = (refl, h)
&&-true false b h = cc

pub all_below_lem : (n : ℕ) (p : ℕ → Bool) → all_below n p ≡ true → (i : ℕ) → i < n → p i ≡ true
unfolding all_below
all_below_lem zero p h i le = absurd (omega arith)
all_below_lem (suc n) p h i le =
    let both = &&-true (p n) (all_below n p) h in
    elim (Bool-cases (i == n)) [
      | inl e ↦ subst (λ k. p k ≡ true) (sym ((==_iff i n).0 e)) both.0
      | inr e ↦ all_below_lem n p both.1 i (ground (arith, e))
    ]

is_value : ℕ → Option (Option ℕ) → Bool
is_value i (some (some v)) = v == i
is_value i _ = false

is_value_lem : (i : ℕ) (o : Option (Option ℕ)) → is_value i o ≡ true → o ≡ some (some i)
unfolding is_value
is_value_lem i none h = cc
is_value_lem i (some none) h = cc
is_value_lem i (some (some v)) h = ap (λ k. some (some k)) ((==_iff v i).0 h)

goes_back : ℕ → Bool
goes_back i =
    is_value i (get_elem? inverse_tab (tab i)) && (ltb (tab i) 128 && not (tab i == equals_sign))

tables_agree : all_below 64 goes_back ≡ true
unfolding all_below goes_back is_value tab alphabet inverse_tab
tables_agree = refl

pub char_index-small : (s : Bool) (c : ℕ) → ltb c 128 ≡ true → char_index s c ≡ c
char_index-small true c h = rw h refl
char_index-small false c h = refl

back_lem :
    (i : ℕ)
    → i < 64
    → (get_elem? inverse_tab (tab i) ≡ some (some i))
      × (ltb (tab i) 128 ≡ true)
      × (not (tab i == equals_sign) ≡ true)
unfolding goes_back
back_lem i le =
    let both = &&-true _ _ (all_below_lem 64 goes_back tables_agree i le) in
    let rest = &&-true _ _ both.1 in
    (is_value_lem i (get_elem? inverse_tab (tab i)) both.0, rest.0, rest.1)

-- The table takes each character of the alphabet back to its value, signed or not.
pub lookup-tab : (s : Bool) (i : ℕ) → i < 64 → lookup s (tab i) ≡ some (some i)
unfolding lookup
lookup-tab s i le =
    let (back, small, other) = back_lem i le in
    ap (get_elem? inverse_tab) (char_index-small s (tab i) small) ∙ back

not-true : (b : Bool) → not b ≡ true → b ≡ false
not-true true h = cc
not-true false h = refl

-- No character of the alphabet is the padding.
pub tab-no_padding : (i : ℕ) → i < 64 → (tab i == equals_sign) ≡ false
tab-no_padding i le = let (back, small, other) = back_lem i le in not-true _ other

fits_nonce : ℕ → Bool
fits_nonce i =
    not (tab i == b',')
    && ((leb 33 (tab i) && leb (tab i) 43) || (leb 45 (tab i) && leb (tab i) 126))

table_fits_nonce : all_below 64 fits_nonce ≡ true
unfolding all_below fits_nonce tab alphabet
table_fits_nonce = refl

-- Nor is it a comma, and it may stand in a nonce.
pub tab-no_comma : (i : ℕ) → i < 64 → (tab i == b',') ≡ false
unfolding fits_nonce
tab-no_comma i le =
    not-true _
      (&&-true (not (tab i == b',')) _ (all_below_lem 64 fits_nonce table_fits_nonce i le)).0

pub tab-printable :
    (i : ℕ)
    → i < 64
    → ((leb 33 (tab i) && leb (tab i) 43) || (leb 45 (tab i) && leb (tab i) 126)) ≡ true
unfolding fits_nonce
tab-printable i le =
    (&&-true (not (tab i == b',')) _ (all_below_lem 64 fits_nonce table_fits_nonce i le)).1
