-- ===== src/Codes.antt =====
-- The codes of backlogg/shared/codes.py: the columns that store a text of a fixed vocabulary as a smallint.
pub mod Vocabularies
use backlogg.Prelude.{
  ℕ, Bool, List, [], ◌∷◌, map, Option, none, some, String, str_eq, ◌==◌, if◌then◌else◌,
}

-- A column's class, with its vocabulary.
pub data CodedString : Type 0 where
  item_type_code : CodedString
  credit_role_code : CodedString

-- What the application binds: None, a text, or a value of another type.
pub data BoundValue : Type 0 where
  null : BoundValue
  str : String → BoundValue
  other : BoundValue

pub data Coded {ℓ} (A : Type ℓ) : Type ℓ where
  value : A → Coded A
  value_error : Coded A
  type_error : Coded A

abbrev pub item_type_codes : List (String × ℕ)
item_type_codes = ("MOVIE", 1) ∷ ("SERIES", 2) ∷ ("BOOK", 3) ∷ ("GAME", 4) ∷ ("PERSON", 5) ∷ []

abbrev pub credit_role_codes : List (String × ℕ)
credit_role_codes =
    ("ACTOR", 1)
    ∷ ("DIRECTOR", 2)
    ∷ ("WRITER", 3)
    ∷ ("AUTHOR", 4)
    ∷ ("SOURCE_AUTHOR", 5)
    ∷ ("CREATOR", 6)
    ∷ []

unfoldable pub codes : CodedString → List (String × ℕ)
codes CodedString.item_type_code = item_type_codes
codes CodedString.credit_role_code = credit_role_codes

-- {code: name for name, code in codes.items()}
unfoldable pub names : List (String × ℕ) → List (ℕ × String)
names = map (λ entry. (entry.1, entry.0))

unfoldable pub code_of : String → List (String × ℕ) → Coded (Option ℕ)
code_of name [] = value_error
code_of name ((name', code) ∷ entries) =
    if str_eq name' name then value (some code) else code_of name entries

unfoldable pub name_of : ℕ → List (ℕ × String) → Coded (Option String)
name_of code [] = value_error
name_of code ((code', name) ∷ entries) =
    if code' == code then value (some name) else name_of code entries

unfoldable pub process_bind_param : CodedString → BoundValue → Coded (Option ℕ)
process_bind_param column null = value none
process_bind_param column (str name) = code_of name (codes column)
process_bind_param column other = type_error

unfoldable pub process_result_value : CodedString → Option ℕ → Coded (Option String)
process_result_value column none = value none
process_result_value column (some code) = name_of code (names (codes column))
