-- ===== src/UseCount/Cells.antt =====
-- The counters and the handles that point at them, as lists.
use windows_verifyserver.Prelude.{
  ℕ, zero, suc, ◌+◌, ◌≤◌, ◌<◌, ◌≡◌, refl, ap, List, [], ◌∷◌, ◌++◌, Option, none, some, ◌==◌,
  if◌then◌else◌, length, set, arith, ne→==,
}
use windows_verifyserver.Prelude.Counts.{same, same_self}
use windows_verifyserver.UseCount.{at}

-- How often a handle points at the counter `a`.
unfoldable pub points : ℕ → Option ℕ → ℕ
points a none = 0
points a (some b) = same a b

-- How many handles point at the counter `a`.
unfoldable pub refs : ℕ → List (Option ℕ) → ℕ
refs a [] = 0
refs a (h ∷ hs) = points a h + refs a hs

pub refs-append : (a : ℕ) (xs ys : List (Option ℕ)) → refs a (xs ++ ys) ≡ refs a xs + refs a ys
unfolding refs
refs-append a [] ys = omega arith
refs-append a (x ∷ xs) ys = omega (arith, refs-append a xs ys)

pub refs_le : (a : ℕ) (hs : List (Option ℕ)) → refs a hs ≤ length hs
unfolding refs points
refs_le a [] = omega arith
refs_le a (none ∷ hs) = omega (arith, refs_le a hs)
refs_le a (some b ∷ hs) = ground (arith, refs_le a hs)

-- One handle points somewhere else.
pub refs-set :
    (a b i : ℕ) (h : Option ℕ) (hs : List (Option ℕ))
    → at hs i ≡ some b
    → refs a (set hs i h) + same a b ≡ refs a hs + points a h
unfolding refs points
refs-set a b i h [] e = absurd cc
refs-set a b zero h (x ∷ hs) e = rw e (omega arith)
refs-set a b (suc i) h (x ∷ hs) e = omega (arith, refs-set a b i h hs e)

-- The counter of a handle is pointed at.
pub refs_pos : (b i : ℕ) (hs : List (Option ℕ)) → at hs i ≡ some b → 0 < refs b hs
unfolding refs points
refs_pos b i [] e = absurd cc
refs_pos b zero (x ∷ hs) e = rw e (omega (arith, same_self b))
refs_pos b (suc i) (x ∷ hs) e = omega (arith, refs_pos b i hs e)

suc_same : (a b : ℕ) → (suc a == suc b) ≡ (a == b)
suc_same a b = ground arith

pub at-set :
    (xs : List (Option ℕ)) (b n a : ℕ) (v : Option ℕ)
    → at xs b ≡ some n
    → at (set xs b v) a ≡ (if b == a then v else at xs a)
at-set [] b n a v e = absurd cc
at-set (x ∷ xs) zero n zero v e = refl
at-set (x ∷ xs) zero n (suc a) v e = rw (ne→== 0 (suc a) (omega arith)) refl
at-set (x ∷ xs) (suc b) n zero v e = rw (ne→== (suc b) 0 (omega arith)) refl
at-set (x ∷ xs) (suc b) n (suc a) v e = rw (suc_same b a) (at-set xs b n a v e)

-- A new counter stands behind all others.
pub at-append :
    (xs : List (Option ℕ)) (a : ℕ) (v : Option ℕ)
    → at (xs ++ v ∷ []) a ≡ (if length xs == a then v else at xs a)
at-append [] zero v = refl
at-append [] (suc a) v = rw (ne→== 0 (suc a) (omega arith)) refl
at-append (x ∷ xs) zero v = rw (ne→== (suc (length xs)) 0 (omega arith)) refl
at-append (x ∷ xs) (suc a) v = rw (suc_same (length xs) a) (at-append xs a v)

pub set-set : (xs : List (Option ℕ)) (a : ℕ) (c d : Option ℕ) → set (set xs a c) a d ≡ set xs a d
set-set [] a c d = refl
set-set (x ∷ xs) zero c d = refl
set-set (x ∷ xs) (suc a) c d = ap (λ ys. x ∷ ys) (set-set xs a c d)

pub at_lt : (xs : List (Option ℕ)) (i n : ℕ) → at xs i ≡ some n → i < length xs
at_lt [] i n e = absurd cc
at_lt (x ∷ xs) zero n e = omega arith
at_lt (x ∷ xs) (suc i) n e = omega (arith, at_lt xs i n e)

pub at-append_left :
    (xs : List (Option ℕ)) (i n : ℕ) (v : Option ℕ)
    → at xs i ≡ some n
    → at (xs ++ v ∷ []) i ≡ some n
at-append_left xs i n v e =
    rw (at-append xs i v, ne→== (length xs) i (omega (arith, at_lt xs i n e))) e
