-- ===== src/Receiver/Turns.antt =====
-- The ports get the payloads in turn.
use windows_verifyserver.Prelude.{
  ℕ, zero, suc, ◌+◌, ◌*◌, ◌&&◌, ◌||◌, ◌≡◌, refl, List, [], ◌∷◌, Bool, true, false, ◌==◌, length,
  Bool-cases, inl, inr, arith,
}
use windows_verifyserver.Prelude.Results.{ok}
use windows_verifyserver.Receiver.{Receiver, text_of, post_object, advance_port, end_call}

-- One of the characters is 0.
abbrev pub has_end : List ℕ → Bool
has_end [] = false
has_end (x ∷ []) = false
has_end (x ∷ y ∷ bytes) = let later = has_end bytes in (x == 0 && y == 0) || later

-- Each buffer has the character 0 that ends its text.
abbrev pub AllEnd : List (ℕ × List ℕ) → Type 0
AllEnd [] = Unit
AllEnd ((socket, buf) ∷ later) = (has_end buf ≡ true) × AllEnd later

-- Every second element, from the first or from the second on.
abbrev pub alternate : Bool → List ℕ → List ℕ
alternate first [] = []
alternate true (x ∷ xs) = x ∷ alternate false xs
alternate false (x ∷ xs) = alternate true xs

-- `n` numbers from `k` on.
abbrev pub numbers : ℕ → ℕ → List ℕ
numbers k zero = []
numbers k (suc n) = k ∷ numbers (suc k) n

-- A buffer that has the character 0 has a text.
pub text_of-ends : (buf : List ℕ) → has_end buf ≡ true → (text : List ℕ) × (text_of buf ≡ ok text)
unfolding text_of
text_of-ends [] h = absurd cc
text_of-ends (x ∷ []) h = absurd cc
text_of-ends (x ∷ y ∷ bytes) h = elim (Bool-cases (x + 256 * y == 0)) [
  | inl e ↦ ([], rw (text_of, e) refl)
  | inr n ↦
      let (text, e) = text_of-ends bytes (ground (arith, h, n)) in
      ((x + 256 * y) ∷ text, rw (text_of, n, e) refl)
]

-- What Recevie does for a buffer with a text.
abbrev pub after : Receiver → ℕ → List ℕ → Receiver
after s socket text = end_call (advance_port (post_object true s socket text)) (length s.objects)
