-- ===== src/Source/SqlServer/Quoting.antt =====
-- A quoted name cannot end early: the server reads back the name that was quoted.
use weighing_data_sync.Prelude.{
  ℕ, ◌≡◌, ◌≢◌, refl, ap, ◌∙◌, inl, inr, Bool, true, false, ◌&&◌, ◌==◌, ==_iff, Bool-cases,
  if◌then◌else◌, Option, none, some, option_map, all, is_empty-cases, [], ◌∷◌, ◌++◌, append_assoc,
  Text, arith,
}
use weighing_data_sync.Anyhow.{is_ok}
use weighing_data_sync.Text.{replace, starts_with, strip_prefix}
use weighing_data_sync.Source.SqlServer.Identifier.{
  open_bracket, close_bracket, quoted_identifier, is_identifier_char, validate_identifier,
}

abbrev pub prepend : ℕ → Text × Text → Text × Text
prepend c (name, rest) = (c ∷ name, rest)

-- How T-SQL reads a delimited name behind its `[`: a doubled `]` is one, a single one ends the name.
-- The second text is what follows the name.
unfoldable pub read_delimited : Text → Option (Text × Text)
read_delimited [] = none
read_delimited (c ∷ []) = if c == close_bracket then some ([], []) else none
read_delimited (c ∷ d ∷ s) =
    let doubled = read_delimited s in
    let next = read_delimited (d ∷ s) in
    if c == close_bracket
    then if d == close_bracket then option_map (prepend close_bracket) doubled else some ([], d ∷ s)
    else option_map (prepend c) next

abbrev pub read_name : Text → Option (Text × Text)
read_name [] = none
read_name (c ∷ s) = if c == open_bracket then read_delimited s else none

read_delimited-end :
    (rest : Text)
    → starts_with (close_bracket ∷ []) rest ≡ false
    → read_delimited (close_bracket ∷ rest) ≡ some ([], rest)
unfolding read_delimited starts_with strip_prefix
read_delimited-end [] h = refl
read_delimited-end (d ∷ rest) h = ground arith

read_delimited-other :
    (c : ℕ) (s : Text)
    → (c == close_bracket) ≡ false
    → read_delimited (c ∷ s) ≡ option_map (prepend c) (read_delimited s)
unfolding read_delimited
read_delimited-other c [] h = ground arith
read_delimited-other c (d ∷ s) h = rw (read_delimited, h)

read_delimited-doubled :
    (s : Text)
    → read_delimited (close_bracket ∷ close_bracket ∷ s)
      ≡ option_map (prepend close_bracket) (read_delimited s)
unfolding read_delimited
read_delimited-doubled s = refl

read_delimited-replace :
    (name rest : Text)
    → starts_with (close_bracket ∷ []) rest ≡ false
    → read_delimited
        (replace close_bracket (close_bracket ∷ close_bracket ∷ []) name ++ close_bracket ∷ rest)
      ≡ some (name, rest)
unfolding replace
read_delimited-replace [] rest h = read_delimited-end rest h
read_delimited-replace (c ∷ name) rest h = elim (Bool-cases (c == close_bracket)) [
  | inl closes ↦ rw closes (
      read_delimited-doubled _
      ∙ rw (read_delimited-replace name rest h, (==_iff c close_bracket).0 closes))
  | inr other ↦ rw other (read_delimited-other c _ other ∙ rw (read_delimited-replace name rest h))
]

-- Whatever text is quoted, the server reads exactly that text as one name, and goes on with what
-- was written behind it, provided that this does not start with a closing bracket: no name can end
-- the quotation and add to the statement.
pub quoted_identifier_lem :
    (name rest : Text)
    → starts_with (close_bracket ∷ []) rest ≡ false
    → read_name (quoted_identifier name ++ rest) ≡ some (name, rest)
unfolding quoted_identifier
quoted_identifier_lem name rest h = rw append_assoc (read_delimited-replace name rest h)

is_identifier_char-head :
    (c : ℕ) (b : Bool)
    → (is_identifier_char c && b) ≡ true
    → ((c == close_bracket) ≡ false) × (b ≡ true)
is_identifier_char-head c b h = ground arith

replace-id :
    (name : Text)
    → all is_identifier_char name ≡ true
    → replace close_bracket (close_bracket ∷ close_bracket ∷ []) name ≡ name
unfolding replace
replace-id [] h = refl
replace-id (c ∷ name) h =
    let (other, valid) = is_identifier_char-head c (all is_identifier_char name) h in
    rw (other, replace-id name valid)

validate_identifier-valid :
    (name : Text)
    → is_ok (validate_identifier name) ≡ true
    → (name ≢ []) × (all is_identifier_char name ≡ true)
unfolding validate_identifier
validate_identifier-valid name h = elim (is_empty-cases name) [
  | inl (_, empty) ↦ absurd (ground arith)
  | inr (filled, more) ↦ (filled, ground arith)
]

-- A table name that is let in is not empty and has letters, digits, `_` and `.` only, and is quoted
-- without a change.
pub validate_identifier_lem :
    (name : Text)
    → is_ok (validate_identifier name) ≡ true
    → (name ≢ [])
      × (all is_identifier_char name ≡ true)
      × (quoted_identifier name ≡ open_bracket ∷ (name ++ close_bracket ∷ []))
unfolding validate_identifier quoted_identifier
validate_identifier_lem name h =
    let (filled, valid) = validate_identifier-valid name h in
    (filled, valid, ap (λ t. open_bracket ∷ (t ++ close_bracket ∷ [])) (replace-id name valid))
