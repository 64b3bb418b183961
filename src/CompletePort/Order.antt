-- ===== src/CompletePort/Order.antt =====
-- The ways in which a pass of a thread ends.
use mathlib.Core.Option.{some-injective}
use windows_verifyserver.Prelude.{
  ℕ, ◌<◌, ◌≡◌, refl, sym, ◌∙◌, List, [], ◌∷◌, none, some, Bool, true, false, if◌then◌else◌, ltb,
  ltb→lt, Bool-cases, inl, inr,
}
use windows_verifyserver.Prelude.Counts.{count, erase_first}
use windows_verifyserver.CompletePort.{Packet, Pool, leaves, serve, pass}

-- The pool when a packet has been taken from its queue and served.
abbrev pub after_serving : (ℕ → Bool) → Pool → ℕ → Packet → List Packet → Pool
after_serving is_exit s t x queue =
    let s' = serve (record s { queue = queue }) x in
    if leaves is_exit x then record s' { alive = erase_first t s'.alive } else s'

-- The two ways in which a pass comes to its end.
pub data Passed (is_exit : ℕ → Bool) (s : Pool) (t : ℕ) (u : Pool) : Type 0 where
  lost : 0 < count t s.alive → u ≡ record s { alive = erase_first t s.alive } → Passed is_exit s t u
  served :
      (x : Packet) (queue : List Packet)
      → 0 < count t s.alive
      → s.queue ≡ x ∷ queue
      → u ≡ after_serving is_exit s t x queue
      → Passed is_exit s t u

answered-Passed :
    (is_exit : ℕ → Bool) (s : Pool) (t : ℕ) (u : Pool) (queue : List Packet)
    → ltb 0 (count t s.alive) ≡ true
    → s.queue ≡ queue
    → pass is_exit s (t, true) ≡ some u
    → Passed is_exit s t u
unfolding pass
answered-Passed is_exit s t u [] l q e =
    let none_left : pass is_exit s (t, true) ≡ none = rw (pass, l, q) refl in absurd cc
answered-Passed is_exit s t u (x ∷ queue) l q e =
    let taken : pass is_exit s (t, true) ≡ some (after_serving is_exit s t x queue) =
      rw (pass, l, q) refl in
    served x queue (ltb→lt 0 (count t s.alive) l) q (some-injective _ _ (sym e ∙ taken))

-- A pass that comes to its end has lost its thread or served the first packet.
pub pass-Passed :
    (is_exit : ℕ → Bool) (s : Pool) (t : ℕ) (answered : Bool) (u : Pool)
    → pass is_exit s (t, answered) ≡ some u
    → Passed is_exit s t u
unfolding pass
pass-Passed is_exit s t true u e = elim (Bool-cases (ltb 0 (count t s.alive))) [
  | inl l ↦ answered-Passed is_exit s t u s.queue l refl e
  | inr l ↦ let idle : pass is_exit s (t, true) ≡ none = rw (pass, l) refl in absurd cc
]
pass-Passed is_exit s t false u e = elim (Bool-cases (ltb 0 (count t s.alive))) [
  | inl l ↦
      let gone : pass is_exit s (t, false) ≡ some (record s { alive = erase_first t s.alive }) =
        rw (pass, l) refl in
      lost (ltb→lt 0 (count t s.alive) l) (some-injective _ _ (sym e ∙ gone))
  | inr l ↦ let idle : pass is_exit s (t, false) ≡ none = rw (pass, l) refl in absurd cc
]
