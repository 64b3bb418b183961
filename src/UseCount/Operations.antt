-- ===== src/UseCount/Operations.antt =====
-- Each operation on a CUseCount that has not been destroyed keeps the counters right.
use mathlib.Core.Bool.{true≢false}
use windows_verifyserver.Prelude.{
  ℕ, zero, suc, ◌+◌, ◌-◌, ◌^◌, ◌<◌, ◌≡◌, refl, sym, ap, ◌∙◌, List, [], ◌∷◌, ◌++◌, Option, none,
  some, Bool, true, false, ◌==◌, if◌then◌else◌, length, set, arith, ne→==, eq→==, Bool-cases, inl,
  inr, length-append,
}
use windows_verifyserver.Prelude.Counts.{same, same_self}
use windows_verifyserver.Prelude.Word.{sub32, is_pos, is_pos_lem}
use windows_verifyserver.Prelude.Results.{ok, ◌>>=◌}
use windows_verifyserver.UseCount.{
  Counts, at, value, store, repoint, atomic_dec, create, destroy, reattach, make_only,
}
use windows_verifyserver.UseCount.Cells.{
  points, refs, refs-append, refs_le, refs-set, refs_pos, at-set, at-append, set-set,
  at-append_left,
}
use windows_verifyserver.UseCount.Counted.{
  counter, IsCounted, HasHandle, value-refs, inc-refs, dec-refs, copied, copied-IsCounted,
  refs-copied, released, refs-released, released-IsCounted,
}

-- Only the number of handles that point at each counter matters.
same_refs-IsCounted :
    (s : Counts) (hs : List (Option ℕ))
    → IsCounted s
    → ((b : ℕ) → refs b hs ≡ refs b s.handles)
    → IsCounted (record s { handles = hs })
same_refs-IsCounted s hs v e b = v b ∙ ap counter (sym (e b))

value-store : (s : Counts) (a n m : ℕ) → at s.cells a ≡ some n → value (store s a (some m)) a ≡ ok m
value-store s a n m e = rw (at-set s.cells a n a (some m) e, eq→== a a refl) refl

-- The counter is deleted where nothing is left to count.
settle :
    (s : Counts) (a m : ℕ)
    → m < 2 ^ 31
    → (if is_pos m then store s a (some m) else store (store s a (some m)) a none)
      ≡ store s a (counter m)
settle s a zero h = ap (λ xs. record s { cells = xs }) (set-set s.cells a (some 0) none)
settle s a (suc m) h = rw (is_pos_lem (suc m) (omega arith) h, ne→== (suc m) 0 (omega arith)) refl

counter-none : (n : ℕ) → counter n ≡ none → n ≡ 0
counter-none zero e = refl
counter-none (suc n) e =
    let c : counter (suc n) ≡ some (suc n) = rw (ne→== (suc n) 0 (omega arith)) refl in absurd cc

at-length : (xs : List (Option ℕ)) → at xs (length xs) ≡ none
at-length [] = refl
at-length (x ∷ xs) = at-length xs

refs-push : (b a : ℕ) (hs : List (Option ℕ)) → refs b (hs ++ some a ∷ []) ≡ refs b hs + same b a
unfolding refs points
refs-push b a hs = omega (arith, refs-append b hs (some a ∷ []))

-- No handle points at a counter that has not been allocated.
unused : (s : Counts) → IsCounted s → refs (length s.cells) s.handles ≡ 0
unused s v = counter-none _ (sym (v (length s.cells)) ∙ at-length s.cells)

pub create-IsCounted : (s : Counts) → IsCounted s → IsCounted (create true s).0
unfolding create
create-IsCounted s v b = elim (Bool-cases (length s.cells == b)) [
  | inl t ↦
      let m : b ≡ length s.cells = ground arith in
      rw
        (
          create,
          at-append s.cells b (some 1),
          t,
          refs-push b (length s.cells) s.handles,
          m,
          unused s v,
          same_self (length s.cells),
        )
        refl
  | inr f ↦
      let m : same b (length s.cells) ≡ 0 = ground arith in
      rw (create, at-append s.cells b (some 1), f)
        (v b ∙ ap counter (omega (arith, refs-push b (length s.cells) s.handles, m)))
]

module _ (s : Counts) (v : IsCounted s) (i a : ℕ) (h : HasHandle s i a) where
  destroy-released : destroy s i ≡ ok (released s v i a h)
  unfolding destroy
  destroy-released =
      let n = refs a s.handles - 1 in
      let small : n < 2 ^ 31 = omega (arith, h.1, refs_le a s.handles) in
      let e : value (store s a (some n)) a ≡ ok n =
        value-store s a (refs a s.handles) n (value-refs s v i a h) in
      rw (destroy, h.0, dec-refs s v i a h)
        (rw e (ap (λ x. ok (repoint x i none)) (settle s a n small)))

  pub destroy-IsCounted : (t : Counts) × (destroy s i ≡ ok t) × IsCounted t
  destroy-IsCounted = (released s v i a h, destroy-released, released-IsCounted s v i a h)

-- What is left of the test in Reattach.
reattach_lem :
    (s : Counts) (a i b m : ℕ)
    → ◌≡◌ {A = Counts × Bool}
        (if m == 0
          then (repoint (store (store s a (some m)) a none) i (some b), true)
          else (repoint (store s a (some m)) i (some b), false))
        (repoint (store s a (counter m)) i (some b), m == 0)
reattach_lem s a i b zero =
    ap (λ xs. (repoint (record s { cells = xs }) i (some b), true))
      (set-set s.cells a (some 0) none)
reattach_lem s a i b (suc m) = rw (ne→== (suc m) 0 (omega arith)) refl

pred_one : (r : ℕ) → 0 < r → (r - 1 == 0) ≡ (r == 1)
pred_one r h = ground arith

-- Reattach, where `i` points at `a` and `j` at `b`.
module _ (s : Counts) (v : IsCounted s) (i j a b : ℕ) (h : at s.handles i ≡ some a)
    (k : at s.handles j ≡ some b) (small : length s.handles + 2 < 2 ^ 31) where
  has : HasHandle s j b
  has = (k, omega (arith, small))

  abbrev more : Counts
  more = copied s v j b has

  more-has : HasHandle more i a
  more-has = (
    at-append_left s.handles i a (some b) h,
    omega (arith, small, length-append s.handles (some b ∷ [])),
  )

  more-IsCounted : IsCounted more
  more-IsCounted = copied-IsCounted s v j b has

  refs-moved :
      (c : ℕ)
      → refs c (set s.handles i (some b))
        ≡ refs c (released more more-IsCounted i a more-has).handles
  unfolding points
  refs-moved c = omega (
    arith,
    refs-set c a i (some b) s.handles h,
    refs-released more more-IsCounted i a more-has c,
    refs-copied s v j b has c,
  )

  abbrev moved : Counts
  moved = record {
    cells = (released more more-IsCounted i a more-has).cells;
    handles = set s.handles i (some b);
  }

  moved-IsCounted : IsCounted moved
  moved-IsCounted =
      same_refs-IsCounted (released more more-IsCounted i a more-has) (set s.handles i (some b))
        (released-IsCounted more more-IsCounted i a more-has) refs-moved

  reattach-moved : reattach s i j ≡ ok (moved, refs a more.handles == 1)
  unfolding reattach atomic_dec
  reattach-moved =
      let r = refs a more.handles in
      let s' = store s b (some (refs b s.handles + 1)) in
      let e = value-refs more more-IsCounted i a more-has in
      let pos = refs_pos a i more.handles more-has.0 in
      let d : sub32 r 1 ≡ r - 1 = omega (arith, more-has.1, refs_le a more.handles, pos) in
      rw (reattach, h, k, inc-refs s v j b has)
        (rw (e, d, value-store s' a r (r - 1) e)
          (ap ok (reattach_lem s' a i b (r - 1) ∙ ap (λ x. (moved, x)) (pred_one r pos))))

  -- On two CUseCounts that have not been destroyed, with right counters and fewer than 2 ^ 31 - 2
  -- CUseCounts ever made, Reattach keeps the counters right, and answers whether the first was the
  -- only one at its counter and the second is at another.
  pub reattach-IsCounted :
      (t : Counts) × (reattach s i j ≡ ok (t, refs a s.handles + same a b == 1)) × IsCounted t
  reattach-IsCounted = (
    moved,
    reattach-moved ∙ ap (λ n. ok (moved, n == 1)) (refs-copied s v j b has a),
    moved-IsCounted,
  )

module _ (s : Counts) (v : IsCounted s) (i a : ℕ) (h : HasHandle s i a) where
  -- The counter of the others, and a new one.
  abbrev alone : Counts
  alone = (create true (released s v i a h)).0

  refs-alone :
      (c : ℕ)
      → refs c (set s.handles i (some (length (released s v i a h).cells))) ≡ refs c alone.handles
  unfolding points create
  refs-alone c =
      let n = length (released s v i a h).cells in
      omega (
        arith,
        refs-set c a i (some n) s.handles h.0,
        refs-released s v i a h c,
        refs-push c n (released s v i a h).handles,
      )

  make_only-value :
      (memory : Bool)
      → make_only memory s i ≡ elim (refs a s.handles == 1) [
        | true ↦ ok (s, some false)
        | false ↦ do
          s' ← atomic_dec s a
          ok (
              if memory
              then (
                record {
                  cells = s'.cells ++ some 1 ∷ [];
                  handles = set s'.handles i (some (length s'.cells));
                },
                some true,
              )
              else (s', none))
      ]
  unfolding make_only
  make_only-value memory = rw (make_only, h.0, value-refs s v i a h) refl

  -- Makeonly of the only handle of a counter changes nothing.
  pub make_only-only :
      (memory : Bool) → (refs a s.handles == 1) ≡ true → make_only memory s i ≡ ok (s, some false)
  make_only-only memory e = make_only-value memory ∙ rw e refl

  shared :
      (refs a s.handles == 1) ≡ false → counter (refs a s.handles - 1) ≡ some (refs a s.handles - 1)
  shared e =
      rw
        (ne→== (refs a s.handles - 1) 0 (λ z.
          true≢false
            (sym (eq→== (refs a s.handles) 1 (omega (arith, z, refs_pos a i s.handles h.0))) ∙ e)))
        refl

  -- Makeonly gives a handle that shares its counter one of its own.
  pub make_only-IsCounted :
      (refs a s.handles == 1) ≡ false
      → (t : Counts) × (make_only true s i ≡ ok (t, some true)) × IsCounted t
  unfolding create
  make_only-IsCounted e =
      let m = refs a s.handles - 1 in
      (
        record {
          cells = set s.cells a (counter m) ++ some 1 ∷ [];
          handles = set s.handles i (some (length (set s.cells a (counter m))));
        },
        make_only-value true ∙ rw (e, dec-refs s v i a h, shared e) refl,
        same_refs-IsCounted alone (set s.handles i (some (length (set s.cells a (counter m)))))
            (create-IsCounted (released s v i a h) (released-IsCounted s v i a h)) refs-alone,
      )

  -- Where there is no memory, the handle still points at the counter that has been counted down.
  pub make_only-short :
      (refs a s.handles == 1) ≡ false
      → make_only false s i
        ≡ ok (record s { cells = set s.cells a (some (refs a s.handles - 1)) }, none)
  make_only-short e = make_only-value false ∙ rw (e, dec-refs s v i a h) refl
