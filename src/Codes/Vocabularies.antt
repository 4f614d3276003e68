-- ===== src/Codes/Vocabularies.antt =====
-- What is stored by a column of backlogg/shared/codes.py reads back as it was, and nothing else is stored.
use backlogg.Prelude.{
  ℕ, Bool, true, ◌&&◌, not, List, [], ◌∷◌, any, Option, none, some, String, str_eq, ◌==◌, ◌≡◌, ◌≢◌,
  ◌↔◌, refl, arith,
}
use text.Mathlib.TextEquality.{eq_iff}
use backlogg.Codes.{
  CodedString, BoundValue, null, str, value, codes, names, code_of, name_of, process_bind_param,
  process_result_value,
}

-- No name and no code stands twice.
abbrev has_unique : List (String × ℕ) → Bool
has_unique [] = true
has_unique ((name, code) ∷ entries) =
    not (any (λ e. str_eq e.0 name) entries)
    && not (any (λ e. e.1 == code) entries)
    && has_unique entries

code_of-entry :
    (name : String) (code : ℕ) (entries : List (String × ℕ))
    → code_of name entries ≡ value (some code)
    → any (λ e. str_eq e.0 name) entries ≡ true
unfolding code_of any
code_of-entry name code [] h = ground (arith, h)
code_of-entry name code ((n, c) ∷ entries) h = ground (arith, h, code_of-entry name code entries)

code_of-code :
    (name : String) (code : ℕ) (entries : List (String × ℕ))
    → code_of name entries ≡ value (some code)
    → any (λ e. e.1 == code) entries ≡ true
unfolding code_of any
code_of-code name code [] h = ground (arith, h)
code_of-code name code ((n, c) ∷ entries) h = ground (arith, h, code_of-code name code entries)

name_of-entry :
    (code : ℕ) (name : String) (entries : List (String × ℕ))
    → name_of code (names entries) ≡ value (some name)
    → any (λ e. e.1 == code) entries ≡ true
unfolding name_of names any
name_of-entry code name [] h = ground (arith, h)
name_of-entry code name ((n, c) ∷ entries) h = ground (arith, h, name_of-entry code name entries)

name_of-name :
    (code : ℕ) (name : String) (entries : List (String × ℕ))
    → name_of code (names entries) ≡ value (some name)
    → any (λ e. str_eq e.0 name) entries ≡ true
unfolding name_of names any
name_of-name code name [] h = ground (arith, h)
name_of-name code name ((n, c) ∷ entries) h =
    ground (arith, h, eq_iff n name, name_of-name code name entries)

code_of-name_of :
    (name : String) (code : ℕ) (entries : List (String × ℕ))
    → has_unique entries ≡ true
    → (code_of name entries ≡ value (some code))
      ↔ (name_of code (names entries) ≡ value (some name))
unfolding code_of name_of names any
code_of-name_of name code [] unique = (λ h. ground (arith, h), λ h. ground (arith, h))
code_of-name_of name code ((n, c) ∷ entries) unique =
    let rest = code_of-name_of name code entries (ground (arith, unique)) in
    (
      λ h. ground (arith, h, unique, eq_iff n name, rest.0, code_of-code name code entries),
      λ h. ground (arith, h, unique, eq_iff n name, rest.1, name_of-name code name entries),
    )

code_of-ne-none : (name : String) (entries : List (String × ℕ)) → code_of name entries ≢ value none
unfolding code_of
code_of-ne-none name [] h = ground (arith, h)
code_of-ne-none name ((n, c) ∷ entries) h = ground (arith, h, code_of-ne-none name entries)

name_of-ne-none : (code : ℕ) (entries : List (ℕ × String)) → name_of code entries ≢ value none
unfolding name_of
name_of-ne-none code [] h = ground (arith, h)
name_of-ne-none code ((c, n) ∷ entries) h = ground (arith, h, name_of-ne-none code entries)

codes_unique : (column : CodedString) → has_unique (codes column) ≡ true
unfolding codes any
codes_unique CodedString.item_type_code = refl
codes_unique CodedString.credit_role_code = refl

abbrev pub bound : Option String → BoundValue
bound none = null
bound (some name) = str name

-- A code is stored for a text, or NULL for None, exactly when that code reads back as that text, or NULL as
-- None: so every value that can be written is read back unchanged, and only such codes can be read.
pub process_bind_param-process_result_value :
    (column : CodedString) (name : Option String) (code : Option ℕ)
    → (process_bind_param column (bound name) ≡ value code)
      ↔ (process_result_value column code ≡ value name)
unfolding process_bind_param process_result_value
process_bind_param-process_result_value column none none = (λ h. refl, λ h. refl)
process_bind_param-process_result_value column (some name) (some code) =
    code_of-name_of name code (codes column) (codes_unique column)
process_bind_param-process_result_value column none (some code) =
    (λ h. absurd (ground (arith, h)), λ h. absurd (name_of-ne-none code (names (codes column)) h))
process_bind_param-process_result_value column (some name) none =
    (λ h. absurd (code_of-ne-none name (codes column) h), λ h. absurd (ground (arith, h)))
