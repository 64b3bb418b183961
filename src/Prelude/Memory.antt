-- ===== src/Prelude/Memory.antt =====
-- Blocks of memory as lists of bytes. An access outside the block has no result.
use Prim.Native.Nat.{ℕ, zero, suc, ◌+◌, ◌≤◌, ◌<◌}
use mathlib.Core.Path.{◌≡◌, refl, ap, sym, ◌∙◌}
use mathlib.Core.List.{List, [], ◌∷◌, ◌++◌, append_assoc, append-nil}
use mathlib.Core.Option.{Option, none, some}
use native.Mathlib.Omega.{arith}
use windows_verifyserver.Prelude.Tests.{leb, if◌then◌else◌, le→leb, lt→leb, Option-cases}
use mathlib.Core.Logic.{inl, inr}
use windows_verifyserver.Prelude.Results.{Result, err, or_fault, out_of_bounds, ◌>>=◌}
use windows_verifyserver.Prelude.Lists.{
  length, take, drop, get_or, length-append, length-take, length-drop,
}

shift : (m n : ℕ) → suc (m + n) ≡ suc m + n
shift m n = omega arith

module _ {ℓ} {A : Type ℓ} where
  -- `memcpy(block + i, bytes, length bytes)`.
  unfoldable pub copy_at : List A → ℕ → List A → Option (List A)
  copy_at block i bytes =
      if leb (i + length bytes) (length block)
      then some (take i block ++ (bytes ++ drop (i + length bytes) block))
      else none

  -- The `n` bytes at `block + i`.
  unfoldable pub slice : List A → ℕ → ℕ → Option (List A)
  slice block i n = if leb (i + n) (length block) then some (take n (drop i block)) else none

  pub take-append : (k : ℕ) (xs ys : List A) → k ≡ length xs → take k (xs ++ ys) ≡ xs
  take-append zero [] ys e = refl
  take-append zero (x ∷ xs) ys e = absurd (omega arith)
  take-append (suc k) [] ys e = absurd (omega arith)
  take-append (suc k) (x ∷ xs) ys e = ap (◌∷◌ x) (take-append k xs ys (omega arith))

  pub drop-append :
      (k m n : ℕ) (xs ys : List A) → k ≡ length xs → m ≡ k + n → drop m (xs ++ ys) ≡ drop n ys
  drop-append k m n [] ys e f = ap (λ j. drop j ys) (omega arith)
  drop-append zero m n (x ∷ xs) ys e f = absurd (omega arith)
  drop-append (suc k) zero n (x ∷ xs) ys e f = absurd (omega arith)
  drop-append (suc k) (suc m) n (x ∷ xs) ys e f =
      drop-append k m n xs ys (omega arith) (omega arith)

  drop-nil : (n : ℕ) → drop n (let e : List A = [] in e) ≡ []
  drop-nil zero = refl
  drop-nil (suc n) = refl

  pub drop-drop : (m n : ℕ) (xs : List A) → drop n (drop m xs) ≡ drop (m + n) xs
  drop-drop zero n xs = ap (λ j. drop j xs) (omega arith)
  drop-drop (suc m) n [] = drop-nil n ∙ sym (drop-nil (suc m + n))
  drop-drop (suc m) n (x ∷ xs) = drop-drop m n xs ∙ ap (λ j. drop j (x ∷ xs)) (shift m n)

  -- A copy behind the `k` bytes that were written to `des` before.
  pub copy_next :
      (k : ℕ) (w des bytes : List A)
      → k ≡ length w
      → k + length bytes ≤ length des
      → copy_at (w ++ drop k des) k bytes ≡ some ((w ++ bytes) ++ drop (k + length bytes) des)
  unfolding copy_at
  copy_next k w des bytes e h =
      rw
        (le→leb (k + length bytes) (length (w ++ drop k des))
          (omega (arith, length-append w (drop k des), length-drop k des)))
        (rw (
          take-append k w (drop k des) e,
          drop-append k (k + length bytes) (length bytes) w (drop k des) e refl,
          drop-drop k (length bytes) des,
          append_assoc,
        ))

  pub copy_overrun :
      (k : ℕ) (w des bytes : List A)
      → k ≡ length w
      → k ≤ length des
      → length des < k + length bytes
      → copy_at (w ++ drop k des) k bytes ≡ none
  unfolding copy_at
  copy_overrun k w des bytes e l h = rw (
      lt→leb (k + length bytes) (length (w ++ drop k des))
        (omega (arith, length-append w (drop k des), length-drop k des)))

  pub length-copy_at :
      (block : List A) (i : ℕ) (bytes out : List A)
      → copy_at block i bytes ≡ some out
      → (length out ≡ length block) × (i + length bytes ≤ length block)
  unfolding copy_at
  length-copy_at block i bytes out h = ground (
    arith,
    length-append (take i block) (bytes ++ drop (i + length bytes) block),
    length-append bytes (drop (i + length bytes) block),
    length-take i block,
    length-drop (i + length bytes) block,
  )

  pub copy_out_of_range :
      (block : List A) (i : ℕ) (bytes : List A)
      → length block < i + length bytes
      → copy_at block i bytes ≡ none
  unfolding copy_at
  copy_out_of_range block i bytes h = rw (lt→leb (i + length bytes) (length block) h)

  -- A chain of copies faults if it faults after this one, which keeps the block's size.
  pub copy_then_fault {κ} :
      {B : Type κ} (block : List A) (i : ℕ) (bytes : List A) (f : List A → Result B)
      → ((d : List A) → length d ≡ length block → f d ≡ err out_of_bounds)
      → (or_fault (copy_at block i bytes) out_of_bounds >>= f) ≡ err out_of_bounds
  copy_then_fault block i bytes f h = elim (Option-cases (copy_at block i bytes)) [
    | inl e ↦ rw e
    | inr (d, e) ↦ rw e (h d (length-copy_at block i bytes d e).0)
  ]

  pub drop_all : (n : ℕ) (xs : List A) → length xs ≤ n → drop n xs ≡ []
  drop_all zero [] h = refl
  drop_all zero (x ∷ xs) h = absurd (omega arith)
  drop_all (suc n) [] h = refl
  drop_all (suc n) (x ∷ xs) h = drop_all n xs (omega arith)

  pub take_all : (n : ℕ) (xs : List A) → length xs ≤ n → take n xs ≡ xs
  take_all zero [] h = refl
  take_all zero (x ∷ xs) h = absurd (omega arith)
  take_all (suc n) [] h = refl
  take_all (suc n) (x ∷ xs) h = ap (◌∷◌ x) (take_all n xs (omega arith))

  -- A copy behind the bytes `w` of a block.
  pub copy_behind :
      (k : ℕ) (w rest bytes : List A)
      → k ≡ length w
      → length bytes ≤ length rest
      → copy_at (w ++ rest) k bytes ≡ some (w ++ (bytes ++ drop (length bytes) rest))
  unfolding copy_at
  copy_behind k w rest bytes e h = rw (
    le→leb (k + length bytes) (length (w ++ rest)) (omega (arith, length-append w rest)),
    take-append k w rest e,
    drop-append k (k + length bytes) (length bytes) w rest e refl,
  )

  -- A copy that fills a block from its start.
  pub copy_whole :
      (block bytes : List A) → length block ≡ length bytes → copy_at block 0 bytes ≡ some bytes
  copy_whole block bytes e = rw (
    copy_behind 0 [] block bytes refl (omega arith),
    drop_all (length bytes) block (omega arith),
    append-nil,
  )

  -- A copy that fills what the first one left.
  pub copy_rest :
      (k : ℕ) (block first second : List A)
      → k ≡ length first
      → length block ≡ length first + length second
      → copy_at (first ++ drop (length first) block) k second ≡ some (first ++ second)
  copy_rest k block first second e h = rw (
    copy_behind k first (drop (length first) block) second e
        (omega (arith, length-drop (length first) block)),
    drop_all (length second) (drop (length first) block)
        (omega (arith, length-drop (length first) block)),
    append-nil,
  )

  pub slice_whole : (block : List A) (n : ℕ) → n ≡ length block → slice block 0 n ≡ some block
  unfolding slice
  slice_whole block n e =
      rw (le→leb (0 + n) (length block) (omega arith), take_all n block (omega arith))

  pub slice_within :
      (block : List A) (i n : ℕ)
      → i + n ≤ length block
      → slice block i n ≡ some (take n (drop i block))
  unfolding slice
  slice_within block i n h = rw (le→leb (i + n) (length block) h)

  pub append-injective :
      (xs ys us vs : List A) → length xs ≡ length us → xs ++ ys ≡ us ++ vs → (xs ≡ us) × (ys ≡ vs)
  append-injective xs ys us vs e h = (
    sym (take-append (length us) xs ys (sym e))
        ∙ ap (take (length us)) h
        ∙ take-append (length us) us vs refl,
    sym (drop-append (length us) (length us) 0 xs ys (sym e) (omega arith))
        ∙ ap (drop (length us)) h
        ∙ drop-append (length us) (length us) 0 us vs refl (omega arith),
  )

  pub get_or-append :
      (xs ys : List A) (i : ℕ) (d : A) → i < length xs → get_or (xs ++ ys) i d ≡ get_or xs i d
  get_or-append [] ys i d h = absurd (omega arith)
  get_or-append (x ∷ xs) ys zero d h = refl
  get_or-append (x ∷ xs) ys (suc i) d h = get_or-append xs ys i d (omega arith)
