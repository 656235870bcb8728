-- ===== src/Parse/Counted.antt =====
-- The tags that src/messages.cpp takes a number of rows from, as the documentation of PostgreSQL
-- describes them.
use nativepg.Prelude.{
  ℕ, ◌≡◌, ◌≢◌, ◌<◌, ◌^◌, refl, ap, ap₂, ◌∙◌, List, [], ◌∷◌, ◌++◌, Option, none, some, Bool-cases,
  ◌==◌, ==_iff, ne_of_==, All, inl, inr,
}
use nativepg.CharConv.{
  Chars, number, invalid_argument, result_out_of_range, from_chars, IsDigit, value_of,
  from_chars-digits, from_chars-number,
}
use nativepg.Parse.CommandTag.{
  skip_prefix, insert, Command, delete, update, merge, select, move, fetch, copy, prefix, or_else,
  skip_one_of, whole_number, parse_affected_rows, skip_oid, rows_behind_oid, insert_rows,
  counted_rows, all_commands, rows_of, parse_command_complete_tag,
}

-- A decimal number of 64 bits.
abbrev pub IsCount : ℕ → List ℕ → Type 0
IsCount n text = (text ≢ []) × All IsDigit text × (n ≡ value_of 0 text) × (n < 2 ^ 64)

-- "INSERT oid rows", or the name of another command and its rows.
pub data Counts (n : ℕ) (tag : List ℕ) : Type 0 where
  inserted :
      (oid rows : List ℕ)
      → tag ≡ insert ++ (b' ' ∷ oid ++ (b' ' ∷ rows))
      → All (λ c. c ≢ b' ') oid
      → IsCount n rows
      → Counts n tag
  counted :
      (c : Command) (rows : List ℕ)
      → tag ≡ prefix c ++ (b' ' ∷ rows)
      → IsCount n rows
      → Counts n tag

skip_prefix-append : (tag p : List ℕ) {r : List ℕ} → skip_prefix tag p ≡ some r → tag ≡ p ++ r
skip_prefix-append tag [] h = cc
skip_prefix-append [] (x ∷ p) h = cc
skip_prefix-append (c ∷ tag) (x ∷ p) h = elim (Bool-cases (c == x)) [
  | inr n ↦ let e : ◌≡◌ {A = Option (List ℕ)} none (some _) = (rw n at h) in cc
  | inl y ↦ ap₂ (λ a b. a ∷ b) ((==_iff c x).0 y) (skip_prefix-append tag p (rw y at h))
]

skip_one_of-prefix :
    (tag : List ℕ) (cs : List Command) {r : List ℕ}
    → skip_one_of tag cs ≡ some r
    → (c : Command) × (tag ≡ prefix c ++ r)
skip_one_of-prefix tag [] h = cc
skip_one_of-prefix tag (c ∷ cs) {r} h =
    by_first (skip_prefix tag (prefix c)) refl h (skip_one_of-prefix tag cs)
  where
    by_first :
        (o : Option (List ℕ))
        → skip_prefix tag (prefix c) ≡ o
        → or_else o (skip_one_of tag cs) ≡ some r
        → (skip_one_of tag cs ≡ some r → (c : Command) × (tag ≡ prefix c ++ r))
        → (c : Command) × (tag ≡ prefix c ++ r)
    by_first none e g later = later g
    by_first (some p) e g later = (c, skip_prefix-append tag (prefix c) (e ∙ g))

skip_oid-append :
    (oid rows : List ℕ) → All (λ c. c ≢ b' ') oid → skip_oid (oid ++ (b' ' ∷ rows)) ≡ some rows
skip_oid-append [] rows h = refl
skip_oid-append (c ∷ oid) rows (other, h) = elim (Bool-cases (c == b' ')) [
  | inl y ↦ absurd (other ((==_iff c b' ').0 y))
  | inr n ↦ rw n (skip_oid-append oid rows h)
]

skip_oid-split :
    (text : List ℕ) {rows : List ℕ}
    → skip_oid text ≡ some rows
    → (oid : List ℕ) × All (λ c. c ≢ b' ') oid × (text ≡ oid ++ (b' ' ∷ rows))
skip_oid-split [] h = cc
skip_oid-split (c ∷ text) {rows} h = elim (Bool-cases (c == b' ')) [
  | inl y ↦
      let e : ◌≡◌ {A = Option (List ℕ)} (some text) (some rows) = (rw y at h) in
      ([], tt, ap₂ (λ a b. a ∷ b) ((==_iff c b' ').0 y) (cc))
  | inr n ↦
      let (oid, others, e) = skip_oid-split text (rw n at h) in
      (c ∷ oid, (ne_of_== c b' ' n, others), ap (λ b. c ∷ b) e)
]

parse_affected_rows-IsCount :
    (text : List ℕ) {n : ℕ} → (parse_affected_rows text).1 ≡ some n → IsCount n text
unfolding parse_affected_rows
parse_affected_rows-IsCount text {n} h =
    from_chars-number (2 ^ 64) n text (read (from_chars (2 ^ 64) text) h)
  where
    read : (c : Chars) → (whole_number c).1 ≡ some n → c ≡ number n []
    read (number m []) e = cc
    read (number m (d ∷ ds)) e = cc
    read invalid_argument e = cc
    read result_out_of_range e = cc

IsCount-parse_affected_rows :
    (text : List ℕ) {n : ℕ} → IsCount n text → parse_affected_rows text ≡ (none, some n)
unfolding parse_affected_rows
IsCount-parse_affected_rows [] (some_text, _, _, _) = absurd (some_text refl)
IsCount-parse_affected_rows (d ∷ ds) {n} (_, digits, value, small) =
    rw (from_chars-digits (2 ^ 64) d ds digits (rw value at small), value) refl

insert_rows-split :
    (text : List ℕ) {n : ℕ}
    → (insert_rows text).1 ≡ some n
    → (oid rows : List ℕ) × (text ≡ b' ' ∷ oid ++ (b' ' ∷ rows))
      × All (λ c. c ≢ b' ') oid
      × IsCount n rows
insert_rows-split [] h = cc
insert_rows-split (c ∷ text) {n} h = elim (Bool-cases (c == b' ')) [
  | inr m ↦ let e : ◌≡◌ {A = Option ℕ} none (some n) = (rw m at h) in cc
  | inl y ↦ behind ((==_iff c b' ').0 y) (skip_oid text) refl (rw y at h)
]
  where
    behind :
        c ≡ b' '
        → (o : Option (List ℕ)) → skip_oid text ≡ o
        → (rows_behind_oid o).1 ≡ some n
        → (oid rows : List ℕ) × (c ∷ text ≡ b' ' ∷ oid ++ (b' ' ∷ rows))
          × All (λ c. c ≢ b' ') oid
          × IsCount n rows
    behind y none e g = cc
    behind y (some rows) e g =
        let (oid, others, split) = skip_oid-split text e in
        (oid, rows, ap₂ (λ a b. a ∷ b) y split, others, parse_affected_rows-IsCount rows g)

counted_rows-split :
    (o : Option (List ℕ)) {n : ℕ}
    → (counted_rows o).1 ≡ some n
    → (rows : List ℕ) × (o ≡ some (b' ' ∷ rows)) × IsCount n rows
counted_rows-split none h = cc
counted_rows-split (some []) h = cc
counted_rows-split (some (c ∷ rows)) {n} h = elim (Bool-cases (c == b' ')) [
  | inr m ↦ let e : ◌≡◌ {A = Option ℕ} none (some n) = (rw m at h) in cc
  | inl y ↦ (
    rows,
    ap (λ c. some (c ∷ rows)) ((==_iff c b' ').0 y),
    parse_affected_rows-IsCount rows (rw y at h),
  )
]

counted_lem :
    (c : Command) (text : List ℕ)
    → rows_of (skip_prefix (prefix c ++ text) insert) (prefix c ++ text) ≡ counted_rows (some text)
counted_lem delete text = refl
counted_lem update text = refl
counted_lem merge text = refl
counted_lem select text = refl
counted_lem move text = refl
counted_lem fetch text = refl
counted_lem copy text = refl

documented_if_read :
    (tag : List ℕ) {n : ℕ} → (parse_command_complete_tag tag).1 ≡ some n → Counts n tag
unfolding parse_command_complete_tag
documented_if_read tag {n} h = by_insert (skip_prefix tag insert) refl h
  where
    by_insert :
        (o : Option (List ℕ))
        → skip_prefix tag insert ≡ o
        → (rows_of o tag).1 ≡ some n
        → Counts n tag
    by_insert (some text) e g =
        let (oid, rows, split, others, count) = insert_rows-split text g in
        inserted oid rows (skip_prefix-append tag insert e ∙ ap (λ t. insert ++ t) split) others
          count
    by_insert none e g =
        let (rows, found, count) = counted_rows-split (skip_one_of tag all_commands) g in
        let (c, split) = skip_one_of-prefix tag all_commands found in counted c rows split count

read_if_documented :
    (tag : List ℕ) {n : ℕ} → Counts n tag → parse_command_complete_tag tag ≡ (none, some n)
unfolding parse_command_complete_tag
read_if_documented tag (inserted oid rows split others count) =
    rw (split, skip_oid-append oid rows others) (IsCount-parse_affected_rows rows count)
read_if_documented tag (counted c rows split count) =
    rw split (counted_lem c (b' ' ∷ rows) ∙ IsCount-parse_affected_rows rows count)

-- For every tag and every number: when parse_command_complete_tag leaves that number in its output,
-- the tag is "INSERT", a space, an oid without spaces, a space and the number, or one of "DELETE",
-- "UPDATE", "MERGE", "SELECT", "MOVE", "FETCH" and "COPY", a space and the number, the number being
-- decimal digits that stand for less than 2 ^ 64; and for each such tag the function returns no error
-- and the number.
pub parse_command_complete_tag-Counts :
    (tag : List ℕ) (n : ℕ)
    → ((parse_command_complete_tag tag).1 ≡ some n → Counts n tag)
      × (Counts n tag → parse_command_complete_tag tag ≡ (none, some n))
parse_command_complete_tag-Counts tag n = (documented_if_read tag, read_if_documented tag)
