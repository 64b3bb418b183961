-- ===== src/UseCount/Counted.antt =====
-- What holds of the counters: each counts the handles that point at it.
use windows_verifyserver.Prelude.{
  ℕ, ◌+◌, ◌-◌, ◌^◌, ◌<◌, ◌≡◌, refl, ap, ◌∙◌, List, [], ◌∷◌, ◌++◌, Option, none, some, ◌==◌,
  if◌then◌else◌, length, set, arith, ne→==, Bool-cases, inl, inr,
}
use windows_verifyserver.Prelude.Counts.{same, same_self}
use windows_verifyserver.Prelude.Results.{ok}
use windows_verifyserver.UseCount.{Counts, at, store, atomic_inc, atomic_dec, copy}
use windows_verifyserver.UseCount.Cells.{
  points, refs, refs-append, refs_le, refs-set, refs_pos, at-set,
}

-- The counter that `n` handles point at: none of them, and it has been deleted.
abbrev pub counter : ℕ → Option ℕ
counter n = if n == 0 then none else some n

-- Each counter counts the handles that point at it, and one that none points at is deleted.
abbrev pub IsCounted : Counts → Type 0
IsCounted s = (a : ℕ) → at s.cells a ≡ counter (refs a s.handles)

-- A CUseCount that has not been destroyed, and a count of handles that fits in a long.
abbrev pub HasHandle : Counts → ℕ → ℕ → Type 0
HasHandle s i a = (at s.handles i ≡ some a) × (length s.handles + 1 < 2 ^ 31)

module _ (s : Counts) (v : IsCounted s) (i a : ℕ) (h : HasHandle s i a) where
  pub value-refs : at s.cells a ≡ some (refs a s.handles)
  value-refs =
      v a ∙ rw (ne→== (refs a s.handles) 0 (omega (arith, refs_pos a i s.handles h.0))) refl

  pub inc-refs : atomic_inc s a ≡ ok (store s a (some (refs a s.handles + 1)))
  unfolding atomic_inc
  inc-refs =
      rw (atomic_inc, value-refs)
        (ap (λ n. ok (store s a (some n))) (omega (arith, h.1, refs_le a s.handles)))

  pub dec-refs : atomic_dec s a ≡ ok (store s a (some (refs a s.handles - 1)))
  unfolding atomic_dec
  dec-refs =
      rw (atomic_dec, value-refs)
        (ap (λ n. ok (store s a (some n)))
          (omega (arith, h.1, refs_le a s.handles, refs_pos a i s.handles h.0)))

  -- The counter gets the value `c`, and the handles become `hs`.
  set-IsCounted :
      (c : Option ℕ) (hs : List (Option ℕ))
      → c ≡ counter (refs a hs)
      → ((b : ℕ) → same b a ≡ 0 → refs b hs ≡ refs b s.handles)
      → IsCounted (record { cells = set s.cells a c; handles = hs })
  set-IsCounted c hs e k b = elim (Bool-cases (a == b)) [
    | inl t ↦
        let m : b ≡ a = ground arith in
        rw (at-set s.cells a (refs a s.handles) b c value-refs, t, m) e
    | inr f ↦ rw (at-set s.cells a (refs a s.handles) b c value-refs, f, k b (ground arith)) (v b)
  ]

  -- A copy of a handle.
  abbrev pub copied : Counts
  copied = record {
    cells = set s.cells a (some (refs a s.handles + 1));
    handles = s.handles ++ some a ∷ [];
  }

  pub refs-copied : (b : ℕ) → refs b copied.handles ≡ refs b s.handles + same b a
  unfolding refs points
  refs-copied b = omega (arith, refs-append b s.handles (some a ∷ []))

  pub copied-IsCounted : IsCounted copied
  copied-IsCounted =
      set-IsCounted (some (refs a s.handles + 1)) copied.handles
        (rw
          (
            refs-copied a,
            ne→== (refs a s.handles + same a a) 0 (omega (arith, same_self a)),
            same_self a,
          )
          refl)
        (λ b z. omega (arith, refs-copied b, z))

  pub copy-IsCounted : (copy s i ≡ ok copied) × IsCounted copied
  unfolding copy
  copy-IsCounted = (rw (copy, h.0, inc-refs) refl, copied-IsCounted)

  -- One handle fewer.
  abbrev pub released : Counts
  released = record {
    cells = set s.cells a (counter (refs a s.handles - 1));
    handles = set s.handles i none;
  }

  pub refs-released : (b : ℕ) → refs b released.handles + same b a ≡ refs b s.handles
  unfolding points
  refs-released b = omega (arith, refs-set b a i none s.handles h.0)

  pub released-IsCounted : IsCounted released
  released-IsCounted =
      let e : refs a s.handles - 1 ≡ refs a released.handles =
        omega (arith, refs-released a, same_self a) in
      set-IsCounted (counter (refs a s.handles - 1)) released.handles (ap counter e)
        (λ b z. omega (arith, refs-released b, z))
