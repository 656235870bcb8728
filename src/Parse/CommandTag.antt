-- ===== src/Parse/CommandTag.antt =====
-- src/messages.cpp, skip_prefix to parse_command_complete_tag: the number of rows in the tag of a
-- command_complete; and error_notice_fields::parsed_line_number. A tag is its characters.
use nativepg.Prelude.{codes, ℕ, ◌^◌, List, [], ◌∷◌, Option, none, some, if◌then◌else◌, ◌==◌}
use nativepg.Protocol.{ErrorCode, client, foreign, incomplete_message, extra_bytes}
use nativepg.CharConv.{Chars, number, invalid_argument, result_out_of_range, from_chars}

-- What is behind the prefix.
abbrev pub skip_prefix : List ℕ → List ℕ → Option (List ℕ)
skip_prefix tag [] = some tag
skip_prefix [] (p ∷ ps) = none
skip_prefix (c ∷ cs) (p ∷ ps) = let rest = skip_prefix cs ps in if c == p then rest else none

abbrev pub insert : List ℕ
insert = codes "INSERT"

-- The other commands that count rows.
pub data Command : Type 0 where
  delete update merge select move fetch copy : Command

abbrev pub prefix : Command → List ℕ
prefix delete = codes "DELETE"
prefix update = codes "UPDATE"
prefix merge = codes "MERGE"
prefix select = codes "SELECT"
prefix move = codes "MOVE"
prefix fetch = codes "FETCH"
prefix copy = codes "COPY"

abbrev pub or_else : Option (List ℕ) → Option (List ℕ) → Option (List ℕ)
or_else none q = q
or_else (some p) q = some p

-- `||` over the tests for a prefix.
abbrev pub skip_one_of : List ℕ → List Command → Option (List ℕ)
skip_one_of tag [] = none
skip_one_of tag (c ∷ cs) = or_else (skip_prefix tag (prefix c)) (skip_one_of tag cs)

-- The error that is returned, and `output`, which parse_command_complete_tag resets first.
abbrev pub RowCount : Type 0
RowCount = ErrorCode × Option ℕ

-- EINVAL and ERANGE are what std::errc stands for.
abbrev pub whole_number : Chars → RowCount
whole_number (number num []) = (none, some num)
whole_number (number num (c ∷ cs)) = (some (client extra_bytes), none)
whole_number invalid_argument = (some (foreign 22), none)
whole_number result_out_of_range = (some (foreign 34), none)

unfoldable pub parse_affected_rows : List ℕ → RowCount
parse_affected_rows text = whole_number (from_chars (2 ^ 64) text)

abbrev pub skip_oid : List ℕ → Option (List ℕ)
skip_oid [] = none
skip_oid (c ∷ cs) = let rest = skip_oid cs in if c == b' ' then some cs else rest

abbrev pub rows_behind_oid : Option (List ℕ) → RowCount
rows_behind_oid none = (some (client incomplete_message), none)
rows_behind_oid (some p) = parse_affected_rows p

abbrev pub insert_rows : List ℕ → RowCount
insert_rows [] = (some (client incomplete_message), none)
insert_rows (c ∷ cs) = if c == b' ' then rows_behind_oid (skip_oid cs) else (none, none)

abbrev pub counted_rows : Option (List ℕ) → RowCount
counted_rows none = (none, none)
counted_rows (some []) = (some (client incomplete_message), none)
counted_rows (some (c ∷ cs)) = if c == b' ' then parse_affected_rows cs else (none, none)

abbrev pub all_commands : List Command
all_commands = delete ∷ update ∷ merge ∷ select ∷ move ∷ fetch ∷ copy ∷ []

abbrev pub rows_of : Option (List ℕ) → List ℕ → RowCount
rows_of (some p) tag = insert_rows p
rows_of none tag = counted_rows (skip_one_of tag all_commands)

unfoldable pub parse_command_complete_tag : List ℕ → RowCount
parse_command_complete_tag tag = rows_of (skip_prefix tag insert) tag

-- boost::charconv::from_chars into a std::size_t is an argument.
abbrev pub whole_line : Chars → Option ℕ
whole_line (number res []) = some res
whole_line _ = none

abbrev pub parsed_line_number : (List ℕ → Chars) → Option (List ℕ) → Option ℕ
parsed_line_number from_chars none = none
parsed_line_number from_chars (some line_number) = whole_line (from_chars line_number)
