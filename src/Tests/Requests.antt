-- ===== src/Tests/Requests.antt =====
-- A request to sign up, over a JSON value with four nodes.
use windows_verifyserver.Prelude.{
  ℕ, ◌<◌, ◌⊎◌, zero, suc, ◌≡◌, refl, List, [], ◌∷◌, Option, none, some, false, ◌==◌, if◌then◌else◌,
}
use windows_verifyserver.Prelude.Counts.{count}
use windows_verifyserver.Prelude.Memory.{copy_at}
use windows_verifyserver.Prelude.Results.{ok, err, out_of_bounds}
use windows_verifyserver.GlobalFunc.{TextApi, c_text, utf8_to_unicode}
use windows_verifyserver.Requests.{
  Json, Parser, content_key, ctype_key, cvalue_key, str_request, same_text, parse_data, is_type,
  parse_content, tree_is_type, tree_parse_data, unicode_of,
}
use windows_verifyserver.Requests.Signup.{parse_data-refuses}

abbrev ascii : TextApi
ascii = record { to_wide = λ s. s; to_utf8 = λ s. s }

-- The text, its content, and the type and the value of that.
abbrev nodes : ℕ → List ℕ → Option ℕ
nodes zero key = if same_text key content_key then some 1 else none
nodes (suc zero) key =
    if same_text key ctype_key then some 2 else (if same_text key cvalue_key then some 3 else none)
nodes (suc (suc n)) key = none

abbrev json : Json ℕ
json = record {
  parse = λ t. elim t [ [] ↦ none | (x ∷ xs) ↦ if x == b'{' then some 0 else none ];
  item = nodes;
  string_value = λ n. if n == 2 then some str_request else none;
  is_object = λ n. n == 3;
}

abbrev new_parser : Parser
new_parser = record { str_type = []; signup_sql = []; trees = 0 }

-- A request to sign up.
parse_data-refuses_example :
    ((0 < count 0 (b'{' ∷ 0 ∷ []))
      × (t : Parser) × (parse_data json ascii (b'I' ∷ []) new_parser (b'{' ∷ 0 ∷ [])
          ≡ ok (t, false)))
    ⊎ ((count 0 (b'{' ∷ 0 ∷ []) ≡ 0)
        × (parse_data json ascii (b'I' ∷ []) new_parser (b'{' ∷ 0 ∷ []) ≡ err out_of_bounds))
parse_data-refuses_example = parse_data-refuses json ascii (b'I' ∷ []) new_parser (b'{' ∷ 0 ∷ [])

-- Its type is kept, and two trees are left; the four texts of the statement are empty.
signup :
    parse_data json ascii (b'I' ∷ []) new_parser (b'{' ∷ 0 ∷ [])
    ≡ ok (record { str_type = str_request; signup_sql = b'I' ∷ []; trees = 2 }, false)
unfolding parse_data is_type parse_content tree_is_type tree_parse_data unicode_of utf8_to_unicode
    c_text copy_at same_text
signup = refl

-- One byte that is no 0.
unended : parse_data json ascii (b'I' ∷ []) new_parser (b'{' ∷ []) ≡ err out_of_bounds
unfolding parse_data is_type unicode_of utf8_to_unicode c_text
unended = refl
