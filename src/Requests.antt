-- ===== src/Requests.antt =====
-- How a payload is read as a request to sign up: CNetSocketDataParse and ClientSignupNetSocketDataParse
-- (VerifyServer/VerifyServer/NetSocketDataParse.cpp and ClientSignupNetSocketDataParse.cpp), over what
-- cJSON makes of a text. CEncrypter::Decrypt returns nothing that is used.
pub mod Signup
use windows_verifyserver.Prelude.{
  ℕ, ◌+◌, List, [], ◌∷◌, Option, none, some, Bool, true, false, ◌&&◌, ◌==◌, if◌then◌else◌,
  replicate,
}
use windows_verifyserver.Prelude.Results.{Result, ok, ◌>>=◌}
use windows_verifyserver.GlobalFunc.{TextApi, utf8_to_unicode}

-- cJSON_Parse, cJSON_GetObjectItem, the text of a value of type cJSON_String, and whether the type is
-- cJSON_Object.
pub record Json (Tree : Type 0) : Type 0 where
  pub parse : List ℕ → Option Tree
  pub item : Tree → List ℕ → Option Tree
  pub string_value : Tree → Option (List ℕ)
  pub is_object : Tree → Bool

-- ClientSignupNetSocketDataParse; `trees` counts the trees that cJSON_Parse has made and that
-- cJSON_Delete has not deleted.
pub record Parser : Type 0 where
  pub str_type : List ℕ
  pub signup_sql : List ℕ
  pub trees : ℕ

-- JSON_COMMON_CONTENT_KEY, JSON_COMMON_CTYPE_KEY and JSON_COMMON_CVALUE_KEY
abbrev pub content_key : List ℕ
content_key = b'c' ∷ b'o' ∷ b'n' ∷ b't' ∷ b'e' ∷ b'n' ∷ b't' ∷ []

abbrev pub ctype_key : List ℕ
ctype_key = b'c' ∷ b't' ∷ b'y' ∷ b'p' ∷ b'e' ∷ []

abbrev pub cvalue_key : List ℕ
cvalue_key = b'c' ∷ b'v' ∷ b'a' ∷ b'l' ∷ b'u' ∷ b'e' ∷ []

-- m_strRequest, "user_regist_request"
abbrev pub str_request : List ℕ
str_request =
    b'u' ∷ b's' ∷ b'e' ∷ b'r' ∷ b'_' ∷ b'r' ∷ b'e' ∷ b'g' ∷ b'i' ∷ b's' ∷ b't' ∷ b'_' ∷ b'r' ∷ b'e'
    ∷ b'q' ∷ b'u' ∷ b'e' ∷ b's' ∷ b't' ∷ []

-- `compare(...) == 0`
unfoldable pub same_text : List ℕ → List ℕ → Bool
same_text [] [] = true
same_text [] (y ∷ ys) = false
same_text (x ∷ xs) [] = false
same_text (x ∷ xs) (y ∷ ys) = x == y && same_text xs ys

-- `text` are the conversions of Windows, and `statement` is what _stprintf makes of
-- insert_clientuser_data with four empty texts.
module _ {Tree : Type 0} (json : Json Tree) (text : TextApi) (statement : List ℕ) where
  -- The array `unicode` behind GlobalUtf8ToUnicode; its result is not looked at.
  unfoldable pub unicode_of : List ℕ → Result (List ℕ)
  unicode_of payload =
      let zeros = replicate 1024 0 in
      utf8_to_unicode text payload zeros 1023 >>= λ r. elim r [ none ↦ ok zeros | some b ↦ ok b ]

  -- _isType for the tree of the text.
  unfoldable pub tree_is_type : Parser → Tree → Parser × Bool
  tree_is_type s root = elim (json.item root content_key) [
    | none ↦ (s, false)
    | some content ↦ elim (json.item content ctype_key) [
      | none ↦ (s, false)
      | some type ↦ elim (json.string_value type) [
        | none ↦ (s, false)
        | some v ↦ (record s { str_type = v }, same_text v str_request)
      ]
    ]
  ]

  -- ClientSignupNetSocketDataParse::_isType
  unfoldable pub is_type : Parser → List ℕ → Result (Parser × Bool)
  is_type s payload = unicode_of payload >>= λ unicode. elim (json.parse unicode) [
    | none ↦ ok (s, false)
    | some root ↦ ok (tree_is_type (record s { trees = s.trees + 1 }) root)
  ]

  -- _parseData for the tree of the text.
  unfoldable pub tree_parse_data : Parser → Tree → Parser
  tree_parse_data s root = elim (json.item root content_key) [
    | none ↦ s
    | some content ↦ elim (json.item content cvalue_key) [
      | none ↦ s
      | some value ↦ if json.is_object value then record s { signup_sql = statement } else s
    ]
  ]

  -- ClientSignupNetSocketDataParse::_parseData
  unfoldable pub parse_content : Parser → List ℕ → Result (Parser × Bool)
  parse_content s payload = unicode_of payload >>= λ unicode. elim (json.parse unicode) [
    | none ↦ ok (s, false)
    | some root ↦ ok (tree_parse_data (record s { trees = s.trees + 1 }) root, false)
  ]

  -- CNetSocketDataParse::ParseData of a ClientSignupNetSocketDataParse
  unfoldable pub parse_data : Parser → List ℕ → Result (Parser × Bool)
  parse_data s payload = is_type s payload >>= λ r. elim r.1 [
    | false ↦ ok (r.0, false)
    | true ↦ parse_content r.0 payload
  ]
