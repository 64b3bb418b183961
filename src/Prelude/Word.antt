-- ===== src/Prelude/Word.antt =====
-- 32-bit machine words (DWORD, UINT, int) as numbers below 2 ^ 32, and their four bytes in the
-- order in which x86 stores them.
use Prim.Native.Nat.{ℕ, ◌+◌, ◌-◌, ◌*◌, ◌/◌, ◌%◌, ◌^◌, ◌≤◌, ◌<◌}
use mathlib.Core.Path.{◌≡◌}
use mathlib.Core.Bool.{Bool, true, false, ◌&&◌}
use mathlib.Core.List.{List, [], ◌∷◌}
use native.Mathlib.Omega.{arith}
use windows_verifyserver.Prelude.Tests.{ltb}
use windows_verifyserver.Prelude.Lists.{get_or}

abbrev pub word : ℕ → ℕ
word n = n % 2 ^ 32

abbrev pub add32 : ℕ → ℕ → ℕ
add32 a b = word (a + b)

abbrev pub sub32 : ℕ → ℕ → ℕ
sub32 a b = word (a + 2 ^ 32 - b)

-- `0 < w` for a word that is read as an `int`.
abbrev pub is_pos : ℕ → Bool
is_pos w = ltb 0 w && ltb w (2 ^ 31)

-- The bytes that `*(DWORD *)p = w` stores.
abbrev pub le32 : ℕ → List ℕ
le32 w = (w % 256) ∷ (w / 256 % 256) ∷ (w / 65536 % 256) ∷ (w / 16777216 % 256) ∷ []

abbrev pub of_bytes : ℕ → ℕ → ℕ → ℕ → ℕ
of_bytes a b c d = a + 256 * b + 65536 * c + 16777216 * d

-- `*(DWORD *)(p + i)`.
abbrev pub read_le32 : List ℕ → ℕ → ℕ
read_le32 p i =
    word (of_bytes (get_or p i 0) (get_or p (i + 1) 0) (get_or p (i + 2) 0) (get_or p (i + 3) 0))

pub of_bytes-le32 :
    (w : ℕ)
    → w < 2 ^ 32
    → word (of_bytes (w % 256) (w / 256 % 256) (w / 65536 % 256) (w / 16777216 % 256)) ≡ w
of_bytes-le32 w h = omega arith

pub is_pos_lem : (w : ℕ) → 0 < w → w < 2 ^ 31 → is_pos w ≡ true
is_pos_lem w h k = ground arith

pub is_pos_zero : (w : ℕ) → w ≡ 0 → is_pos w ≡ false
is_pos_zero w e = ground arith

pub is_pos_negative : (w : ℕ) → 2 ^ 31 ≤ w → is_pos w ≡ false
is_pos_negative w h = ground arith
