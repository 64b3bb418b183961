-- ===== src/UseCount/Calls.antt =====
-- CUseCounts over any calls, and the assignment that the class keeps private.
use mathlib.Core.Bool.{true≢false}
use windows_verifyserver.Prelude.{
  ℕ, Bool, true, false, ◌-◌, ◌==◌, Bool-cases, inl, inr, ◌+◌, ◌^◌, ◌<◌, ◌≡◌, ◌≢◌, refl, sym, ◌∙◌,
  some, length, set, arith, ne→==, eq→==,
}
use windows_verifyserver.Prelude.Counts.{same, same_self}
use windows_verifyserver.Prelude.Word.{sub32, is_pos_lem}
use windows_verifyserver.Prelude.Results.{ok}
use windows_verifyserver.UseCount.{
  Counts, at, atomic_dec, create, assign, Call, creates, copies, destroys, reattaches, makes_only,
  perform,
}
use windows_verifyserver.UseCount.Cells.{points, refs, refs_le, refs-set, refs_pos, at-set, set-set}
use windows_verifyserver.UseCount.Counted.{
  IsCounted, HasHandle, value-refs, inc-refs, copied, copy-IsCounted,
}
use windows_verifyserver.UseCount.Operations.{
  create-IsCounted, destroy-IsCounted, reattach-IsCounted, make_only-only, make_only-IsCounted,
  make_only-short,
}

-- The CUseCounts that are used have not been destroyed.
pub data IsAllowed (s : Counts) : Call → Type 0 where
  may_create : (memory : Bool) → IsAllowed s (creates memory)
  may_copy : (i a : ℕ) → at s.handles i ≡ some a → IsAllowed s (copies i)
  may_destroy : (i a : ℕ) → at s.handles i ≡ some a → IsAllowed s (destroys i)
  may_reattach :
      (i j a b : ℕ)
      → at s.handles i ≡ some a
      → at s.handles j ≡ some b
      → IsAllowed s (reattaches i j)
  may_make_only :
      (memory : Bool) (i a : ℕ) → at s.handles i ≡ some a → IsAllowed s (makes_only memory i)

-- What a call leaves: right counters, or where it has thrown no new CUseCount, or the counter of the
-- CUseCount counted down although that still points at it.
pub data Left (s : Counts) : Call → Counts × Bool → Type 0 where
  counted : (call : Call) (t : Counts) → IsCounted t → Left s call (t, false)
  not_created : Left s (creates false) (s, true)
  one_short :
      (i a : ℕ)
      → at s.handles i ≡ some a
      → refs a s.handles ≢ 1
      → Left s
          (makes_only false i)
          (record s { cells = set s.cells a (some (refs a s.handles - 1)) }, true)

make_only-Left :
    (s : Counts) (memory : Bool) (i a : ℕ)
    → IsCounted s
    → HasHandle s i a
    → (r : Counts × Bool) × (perform s (makes_only memory i) ≡ ok r)
      × Left s (makes_only memory i) r
make_only-Left s memory i a v g = elim (Bool-cases (refs a s.handles == 1)) [
  | inl e ↦
      ((s, false), rw (make_only-only s v i a g memory e) refl, counted (makes_only memory i) s v)
  | inr e ↦ elim (Bool-cases memory) [
    | inl y ↦
        let (t, f, w) = make_only-IsCounted s v i a g e in
        ((t, false), rw (y, f) refl, counted (makes_only memory i) t w)
    | inr n ↦
        let few : refs a s.handles ≢ 1 = λ z. true≢false (sym (eq→== (refs a s.handles) 1 z) ∙ e) in
        (
          (record s { cells = set s.cells a (some (refs a s.handles - 1)) }, true),
          rw (n, make_only-short s v i a g e) refl,
          rw n (one_short i a g.0 few),
        )
  ]
]

-- Calls on CUseCounts, one after another and not at the same time: a call on CUseCounts that have not
-- been destroyed reads no counter that has been deleted, and leaves each counter at the number of
-- handles that point at it, with those deleted that none points at, as long as the number of
-- CUseCounts ever made stays below 2 ^ 31 - 2. Only where memory is short this is otherwise: the
-- constructor throws and makes nothing, and Makeonly throws and leaves a counter that is one too low.
pub perform-Left :
    (s : Counts) (call : Call)
    → IsCounted s
    → length s.handles + 2 < 2 ^ 31
    → IsAllowed s call
    → (r : Counts × Bool) × (perform s call ≡ ok r) × Left s call r
unfolding create
perform-Left s _ v l (may_create true) =
    (create true s, refl, counted (creates true) (create true s).0 (create-IsCounted s v))
perform-Left s _ v l (may_create false) = ((s, true), refl, not_created)
perform-Left s _ v l (may_copy i a h) =
    let g : HasHandle s i a = (h, omega (arith, l)) in
    let (e, w) = copy-IsCounted s v i a g in
    ((copied s v i a g, false), rw e refl, counted (copies i) (copied s v i a g) w)
perform-Left s _ v l (may_destroy i a h) =
    let (t, e, w) = destroy-IsCounted s v i a (h, omega (arith, l)) in
    ((t, false), rw e refl, counted (destroys i) t w)
perform-Left s _ v l (may_reattach i j a b h k) =
    let (t, e, w) = reattach-IsCounted s v i j a b h k l in
    ((t, false), rw e refl, counted (reattaches i j) t w)
perform-Left s _ v l (may_make_only memory i a h) =
    make_only-Left s memory i a v (h, omega (arith, l))

-- Where the counters are right and the two point at different ones, operator= counts the source up and down again: the
-- handle that it moves is missing in its new counter, and still counted in its old one.
assign-counts :
    (s : Counts) (i j a b : ℕ)
    → IsCounted s
    → HasHandle s i a
    → HasHandle s j b
    → a ≢ b
    → (t : Counts) × (assign s i j ≡ ok t)
      × (at t.cells b ≡ some (refs b s.handles))
      × (refs b t.handles ≡ refs b s.handles + 1)
      × (at t.cells a ≡ some (refs a s.handles))
      × (refs a t.handles + 1 ≡ refs a s.handles)
unfolding assign atomic_dec points
assign-counts s i j a b v h k d =
    let n = refs b s.handles in
    let eb = value-refs s v j b k in
    let ea = value-refs s v i a h in
    let up : at (set s.cells b (some (n + 1))) b ≡ some (n + 1) =
      at-set s.cells b n b (some (n + 1)) eb ∙ rw (eq→== b b refl) refl in
    let down : at (set s.cells b (some n)) b ≡ some n =
      at-set s.cells b n b (some n) eb ∙ rw (eq→== b b refl) refl in
    let other : at (set s.cells b (some n)) a ≡ some (refs a s.handles) =
      at-set s.cells b n a (some n) eb ∙ rw (ne→== b a (λ e. d (sym e))) ea in
    let small : sub32 (n + 1) 1 ≡ n = omega (arith, k.1, refs_le b s.handles) in
    let apart : same a b ≡ 0 = rw (ne→== a b d) refl in
    let apart' : same b a ≡ 0 = rw (ne→== b a (λ e. d (sym e))) refl in
    (
      record { cells = set s.cells b (some n); handles = set s.handles i (some b) },
      rw (assign, k.0, inc-refs s v j b k)
          (rw (up, small, set-set s.cells b (some (n + 1)) (some n), h.0)
            (rw
              (
                other,
                is_pos_lem (refs a s.handles) (refs_pos a i s.handles h.0)
                    (omega (arith, h.1, refs_le a s.handles)),
              )
              refl)),
      down,
      omega (arith, refs-set b a i (some b) s.handles h.0, apart', same_self b),
      other,
      omega (arith, refs-set a a i (some b) s.handles h.0, apart, same_self a),
    )
