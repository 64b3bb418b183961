-- ===== src/GlobalFunc.antt =====
-- The helpers of VerifyServer/VerifyServer/GlobalFunc.cpp: CreateDirectoryMulti, over the functions
-- that Windows has for files, and the conversions of text. A path is the list of its characters.
pub mod Directories
pub mod Text
use windows_verifyserver.Prelude.{
  ℕ, List, [], ◌∷◌, ◌++◌, Option, none, some, Bool, true, false, ◌||◌, ◌==◌, ltb, if◌then◌else◌,
  length, replicate,
}
use windows_verifyserver.Prelude.Memory.{copy_at}
use windows_verifyserver.Prelude.Results.{Result, ok, err, ◌>>=◌, or_fault, out_of_bounds}

-- GetFileAttributes with FILE_ATTRIBUTE_DIRECTORY, PathFileExists and CreateDirectory over the states
-- of a file system, and PathRemoveBackslash and PathAddBackslash.
pub record FileApi (S : Type 0) : Type 0 where
  pub is_directory : S → List ℕ → Bool
  pub exists : S → List ℕ → Bool
  pub create_directory : S → List ℕ → Option S
  pub remove_backslash : List ℕ → List ℕ
  pub add_backslash : List ℕ → List ℕ

abbrev pub backslash : ℕ
backslash = 92

abbrev pub is_separator : ℕ → Bool
is_separator c = c == backslash || c == b'/'

module _ {S : Type 0} (api : FileApi S) where
  -- What is done where the path has a separator, for the path before it.
  unfoldable pub ensure : S → List ℕ → Option S
  ensure s path =
      if api.is_directory s path
      then some s
      else (if api.exists s path then some s else api.create_directory s path)

  -- The loop of CreateDirectoryMulti behind the characters `before`: the state of the files, the path
  -- in its buffer, and the result. Where it fails, the buffer ends at the separator.
  unfoldable pub create_each : S → List ℕ → List ℕ → S × List ℕ × Bool
  create_each s before [] = (s, before, true)
  create_each s before (c ∷ rest) = elim (is_separator c) [
    | false ↦ create_each s (before ++ c ∷ []) rest
    | true ↦ elim (ensure s before) [
      | none ↦ (s, before, false)
      | some t ↦ create_each t (before ++ backslash ∷ []) rest
    ]
  ]

  -- CreateDirectoryMulti, for a path that is not NULL.
  unfoldable pub create_directory_multi : S → List ℕ → S × List ℕ × Bool
  create_directory_multi s path = create_each s [] (api.add_backslash (api.remove_backslash path))

-- MultiByteToWideChar and WideCharToMultiByte for UTF-8, from a text with the 0 that ends it to a text
-- with its 0.
pub record TextApi : Type 0 where
  pub to_wide : List ℕ → List ℕ
  pub to_utf8 : List ℕ → List ℕ

-- What they read for the length -1: the text up to its 0, whatever the size of its buffer. Where no 0
-- is in the buffer, they read behind its end.
unfoldable pub c_text : List ℕ → Result (List ℕ)
c_text [] = err out_of_bounds
c_text (x ∷ xs) =
    let rest = c_text xs in if x == 0 then ok (0 ∷ []) else (rest >>= λ text. ok (x ∷ text))

module _ (api : TextApi) where
  -- GlobalUtf8ToUnicode, for a buffer `unicode` of which the caller says that it has `len` characters;
  -- `none` for NULL.
  unfoldable pub utf8_to_unicode : List ℕ → List ℕ → ℕ → Result (Option (List ℕ))
  utf8_to_unicode uft8 unicode len = c_text uft8 >>= λ text.
      if ltb len (length (api.to_wide text))
      then ok none
      else (or_fault (copy_at unicode 0 (replicate len 0)) out_of_bounds >>= λ zeroed.
          or_fault (copy_at zeroed 0 (api.to_wide text)) out_of_bounds >>= λ filled.
          ok (some filled))

  -- GlobalUnicodeToUtf8, for a buffer `uft8` of `len` bytes; `none` for the result 0.
  unfoldable pub unicode_to_utf8 : List ℕ → List ℕ → ℕ → Result (Option (List ℕ))
  unicode_to_utf8 unicode uft8 len = c_text unicode >>= λ text.
      if ltb len (length (api.to_utf8 text))
      then ok none
      else (or_fault (copy_at uft8 0 (api.to_utf8 text)) out_of_bounds >>= λ filled.
          ok (some filled))
