-- ===== src/Prelude/Counts.antt =====
-- How often a number stands in a list.
use windows_verifyserver.Prelude.Tests.{◌==◌, if◌then◌else◌}
use Prim.Native.Nat.{ℕ, zero, suc, ◌+◌, ◌≤◌, ◌<◌}
use mathlib.Core.Path.{◌≡◌}
use mathlib.Core.List.{List, [], ◌∷◌, ◌++◌}
use native.Mathlib.Omega.{arith}
use windows_verifyserver.Prelude.Lists.{drop}

-- 1 where they are the same number, and 0 elsewhere.
abbrev pub same : ℕ → ℕ → ℕ
same a b = if a == b then 1 else 0

unfoldable pub count : ℕ → List ℕ → ℕ
count a [] = 0
count a (x ∷ xs) = same a x + count a xs

pub count-append : (a : ℕ) (xs ys : List ℕ) → count a (xs ++ ys) ≡ count a xs + count a ys
unfolding count
count-append a [] ys = omega arith
count-append a (x ∷ xs) ys = omega (arith, count-append a xs ys)

pub count-drop : (a n : ℕ) (xs : List ℕ) → count a (drop n xs) ≤ count a xs
unfolding count
count-drop a zero xs = omega arith
count-drop a (suc n) [] = omega arith
count-drop a (suc n) (x ∷ xs) = omega (arith, count-drop a n xs)

pub same_self : (a : ℕ) → same a a ≡ 1
same_self a = ground arith

-- A list without the first of the occurrences of a number.
unfoldable pub erase_first : ℕ → List ℕ → List ℕ
erase_first a [] = []
erase_first a (x ∷ xs) = let rest = erase_first a xs in if x == a then xs else x ∷ rest

pub count-erase_first :
    (a b : ℕ) (xs : List ℕ) → 0 < count b xs → same a b + count a (erase_first b xs) ≡ count a xs
unfolding count erase_first
count-erase_first a b [] h = absurd (omega arith)
count-erase_first a b (x ∷ xs) h = ground (arith, count-erase_first a b xs)
