-- ===== src/Tests/UseCount.antt =====
-- CUseCounts at concrete inputs.
use windows_verifyserver.Prelude.{Bool, false, zero, suc, ◌≡◌, refl, [], ◌∷◌, some, none, arith}
use windows_verifyserver.Prelude.Counts.{same}
use windows_verifyserver.Prelude.Results.{ok, err, ◌>>=◌, use_after_free}
use windows_verifyserver.UseCount.{Counts, destroy, delete_unused, makes_only, perform, atomic_dec}
use windows_verifyserver.UseCount.Cells.{refs, points}
use windows_verifyserver.UseCount.Counted.{IsCounted}
use windows_verifyserver.UseCount.Calls.{Left, may_make_only, perform-Left}

-- Two handles share a counter, and a third has its own.
abbrev three : Counts
three = record { cells = some 2 ∷ some 1 ∷ []; handles = some 0 ∷ some 0 ∷ some 1 ∷ [] }

three-IsCounted : IsCounted three
unfolding refs points
three-IsCounted zero = refl
three-IsCounted (suc zero) = refl
three-IsCounted (suc (suc a)) =
    let x : same (suc (suc a)) 0 ≡ 0 = ground arith in
    let y : same (suc (suc a)) 1 ≡ 0 = ground arith in rw (x, y) refl

-- The last handle of a counter deletes it.
deleted :
    destroy three 2
    ≡ ok (record { cells = some 2 ∷ none ∷ []; handles = some 0 ∷ some 0 ∷ none ∷ [] })
unfolding destroy atomic_dec
deleted = refl

-- Two threads destroy the two handles of the first counter at the same time: both count down before
-- either looks, and the second finds the counter deleted.
raced :
    (atomic_dec three 0 >>= λ s.
    atomic_dec s 0 >>= λ s. delete_unused s 0 0 >>= λ s. delete_unused s 1 0)
    ≡ err use_after_free
unfolding atomic_dec
raced = refl

-- There is no memory for the counter of a handle that shares its own.
perform-Left_example :
    (r : Counts × Bool) × (perform three (makes_only false 0) ≡ ok r)
    × Left three (makes_only false 0) r
perform-Left_example =
    perform-Left three (makes_only false 0) three-IsCounted (omega arith)
      (may_make_only false 0 0 refl)
