-- ===== src/Tcp/Platform.antt =====
-- What the TCP server takes from the C++ runtime and from Windows.
use windows_verifyserver.Prelude.{ℕ, ◌+◌, ◌≤◌, ◌<◌, ◌≡◌, List, [], ◌∷◌, ◌++◌, Option, some, length}

pub record Platform : Type 0 where
  -- `new char[n]`: a block whose contents nothing is said about, or `none` for the exception.
  pub new_bytes : ℕ → Option (List ℕ)
  -- `MultiByteToWideChar(CP_UTF8, 0, s, -1, NULL, 0)`: the wide characters of a string that ends
  -- in NUL, the terminating one included.
  pub wide_len : List ℕ → ℕ

-- Documented behaviour: a new block has the size that was asked for, and a string of n bytes and a
-- NUL has at least one wide character and at most n + 1.
pub record IsSound (p : Platform) : Type 0 where
  pub new_size : (n : ℕ) (b : List ℕ) → p.new_bytes n ≡ some b → length b ≡ n
  pub wide_pos : (s : List ℕ) → 0 < p.wide_len (s ++ 0 ∷ [])
  pub wide_le : (s : List ℕ) → p.wide_len (s ++ 0 ∷ []) ≤ length s + 1

-- Blocks of up to `limit` bytes can be had.
abbrev pub Allocates : Platform → ℕ → Type 0
Allocates p limit = (n : ℕ) → n ≤ limit → (b : List ℕ) × (p.new_bytes n ≡ some b)
