-- ===== src/Tests/GlobalFunc.antt =====
-- CreateDirectoryMulti over a disk that is a list of directories.
use windows_verifyserver.Prelude.{
  ℕ, ◌≡◌, refl, subst, eq→==, List, [], ◌∷◌, ◌++◌, Option, none, some, Bool, true, false, ◌&&◌,
  ◌||◌, ◌==◌, arith,
}
use mathlib.Core.Option.{some-injective}
use windows_verifyserver.GlobalFunc.Text.{utf8_to_unicode-widened}
use windows_verifyserver.Prelude.Counts.{count}
use windows_verifyserver.Prelude.Memory.{copy_at}
use windows_verifyserver.Prelude.Results.{ok}
use windows_verifyserver.GlobalFunc.{
  TextApi, c_text, utf8_to_unicode, unicode_to_utf8, FileApi, create_directory_multi, create_each,
  ensure,
}
use windows_verifyserver.GlobalFunc.Directories.{IsFileApi, Made, create_directory_multi-Made}

unfoldable same_path : List ℕ → List ℕ → Bool
same_path [] [] = true
same_path [] (y ∷ ys) = false
same_path (x ∷ xs) [] = false
same_path (x ∷ xs) (y ∷ ys) = x == y && same_path xs ys

unfoldable holds : List (List ℕ) → List ℕ → Bool
holds [] p = false
holds (q ∷ disk) p = same_path q p || holds disk p

abbrev make : List (List ℕ) → List ℕ → Option (List (List ℕ))
make disk [] = none
make disk (x ∷ p) = some ((x ∷ p) ∷ disk)

abbrev disk_api : FileApi (List (List ℕ))
disk_api = record {
  is_directory = holds;
  exists = holds;
  create_directory = make;
  remove_backslash = λ p. p;
  add_backslash = λ p. p ++ 92 ∷ [];
}

same_path_refl : (p : List ℕ) → same_path p p ≡ true
unfolding same_path
same_path_refl [] = refl
same_path_refl (x ∷ p) = rw (eq→== x x refl) (same_path_refl p)

or_true : (b : Bool) → (b || true) ≡ true
or_true true = refl
or_true false = refl

make-holds : (s t : List (List ℕ)) (p : List ℕ) → make s p ≡ some t → holds t p ≡ true
unfolding holds
make-holds s t [] e = absurd cc
make-holds s t (x ∷ p) e =
    subst (λ d. holds d (x ∷ p) ≡ true) (some-injective ((x ∷ p) ∷ s) t e)
      (rw (same_path_refl (x ∷ p)) refl)

make-kept :
    (s t : List (List ℕ)) (p q : List ℕ) → make s p ≡ some t → holds s q ≡ true → holds t q ≡ true
unfolding holds
make-kept s t [] q e h = absurd cc
make-kept s t (x ∷ p) q e h =
    subst (λ d. holds d q ≡ true) (some-injective ((x ∷ p) ∷ s) t e)
      (rw h (or_true (same_path (x ∷ p) q)))

disk_api-IsFileApi : IsFileApi disk_api
disk_api-IsFileApi = record {
  directory_exists = λ s p h. h;
  created = make-holds;
  kept = make-kept;
}

-- "a/b" on a disk with the directory "c"
abbrev before : List (List ℕ)
before = (b'c' ∷ []) ∷ []

abbrev behind : List (List ℕ)
behind = (b'a' ∷ 92 ∷ b'b' ∷ []) ∷ (b'a' ∷ []) ∷ before

create_directory_multi-Made_example :
    Made disk_api disk_api-IsFileApi before behind []
      (b'a' ∷ b'/' ∷ b'b' ∷ 92 ∷ [])
      (b'a' ∷ 92 ∷ b'b' ∷ 92 ∷ [])
unfolding create_directory_multi create_each ensure holds same_path
create_directory_multi-Made_example =
    create_directory_multi-Made disk_api disk_api-IsFileApi before behind (b'a' ∷ b'/' ∷ b'b' ∷ [])
      (b'a' ∷ 92 ∷ b'b' ∷ 92 ∷ []) refl

abbrev ascii : TextApi
ascii = record { to_wide = λ s. s; to_utf8 = λ s. s }

-- "hi" with a byte behind it, into a buffer of five characters of which four are said to be there.
utf8_to_unicode-widened_example :
    utf8_to_unicode ascii (b'h' ∷ b'i' ∷ 0 ∷ 9 ∷ []) (7 ∷ 7 ∷ 7 ∷ 7 ∷ 7 ∷ []) 4
    ≡ ok (some (b'h' ∷ b'i' ∷ 0 ∷ 0 ∷ 7 ∷ []))
unfolding count
utf8_to_unicode-widened_example =
    utf8_to_unicode-widened ascii (b'h' ∷ b'i' ∷ []) (9 ∷ []) (7 ∷ 7 ∷ 7 ∷ 7 ∷ 7 ∷ []) 4 refl
      (omega arith)

-- And back, into a buffer of four bytes; three are too few for four characters.
there_and_back :
    (unicode_to_utf8 ascii (b'h' ∷ b'i' ∷ 0 ∷ 0 ∷ []) (9 ∷ 9 ∷ 9 ∷ 9 ∷ []) 3
      ≡ ok (some (b'h' ∷ b'i' ∷ 0 ∷ 9 ∷ [])))
    × (unicode_to_utf8 ascii (b'h' ∷ b'i' ∷ b'g' ∷ 0 ∷ []) (9 ∷ 9 ∷ 9 ∷ 9 ∷ []) 3 ≡ ok none)
unfolding unicode_to_utf8 c_text copy_at
there_and_back = (refl, refl)
