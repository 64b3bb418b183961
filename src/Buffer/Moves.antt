-- ===== src/Buffer/Moves.antt =====
-- ReAllocateBuffer and DeAllocateBuffer keep the contents.
use windows_verifyserver.Prelude.{
  ℕ, ◌+◌, ◌-◌, ◌-◌, ◌≤◌, ◌≡◌, refl, List, [], ◌++◌, some, inl, inr, ap, sym, ◌∙◌, take,
  length-append, length, drop, ltb, ltb→lt, Bool-cases, Option-cases, length-drop, le→ltb, arith,
}
use windows_verifyserver.Prelude.Memory.{copy_behind, slice_within, take_all}
use windows_verifyserver.Prelude.Word.{word, sub32}
use windows_verifyserver.Prelude.Results.{Result, ok, err, bad_alloc}
use mathlib.Core.Bool.{true≢false}
use windows_verifyserver.Tcp.Platform.{Platform, IsSound}
use windows_verifyserver.Buffer.{
  Buffer, front, get_buffer_len, round_up, move_to, re_allocate_buffer, de_allocate_buffer,
}
use windows_verifyserver.Buffer.Contents.{
  Contents, unallocated, holds, pack, pack_lem, max_size, take_under,
}

-- A size that fits is not wrapped around.
pub small : (n : ℕ) → n ≤ max_size → word n ≡ n
small n h = omega arith

pub sub32_lem : (a n : ℕ) → n ≤ a → a ≤ max_size → sub32 a n ≡ a - n
sub32_lem a n h k = omega arith

pub round_up_le : (n : ℕ) → n ≤ max_size → (n ≤ round_up n) × (round_up n ≤ max_size)
round_up_le n h = (omega arith, omega arith)

-- The content is in a block with room for `n` bytes, or there was no memory for one.
pub data Room (r : Result (Buffer × ℕ)) (content : List ℕ) (n : ℕ) : Type 0 where
  room :
      (spare : List ℕ) (a : ℕ)
      → r ≡ ok (pack content spare, a)
      → n ≤ length content + length spare
      → length content + length spare ≤ max_size
      → Room r content n
  full : r ≡ err bad_alloc → Room r content n

larger :
    {r : Result (Buffer × ℕ)} {content : List ℕ} {m : ℕ} (n : ℕ)
    → n ≤ m
    → Room r content m
    → Room r content n
larger n h (room spare a e k l) = room spare a e (omega arith) l
larger n h (full e) = full e

-- The contents are kept, wherever they are.
pub data Kept (r : Result (Buffer × ℕ)) (content : List ℕ) : Type 0 where
  kept : (b : Buffer) (a : ℕ) → r ≡ ok (b, a) → Contents b content → Kept r content
  lost : r ≡ err bad_alloc → Kept r content

Room-Kept : {r : Result (Buffer × ℕ)} {content : List ℕ} {n : ℕ} → Room r content n → Kept r content
Room-Kept (room spare a e k l) = kept (pack _ spare) a e (holds spare refl l)
Room-Kept (full e) = lost e

pub front_lem :
    (content spare : List ℕ) (n : ℕ)
    → n ≤ length content
    → front (some (content ++ spare)) n ≡ ok (take n content)
front_lem content spare n h = rw (
  slice_within (content ++ spare) 0 n (omega (arith, length-append content spare)),
  take_under n content spare h,
)

module _ (p : Platform) where
  -- A move to a block of `size` bytes.
  moves :
      (b : Buffer) (content : List ℕ) (size : ℕ)
      → IsSound p
      → get_buffer_len b ≡ length content
      → front b.base (length content) ≡ ok content
      → length content ≤ size
      → size ≤ max_size
      → Room (move_to p b size) content size
  unfolding move_to
  moves b content size sound e f h k = elim (Option-cases (p.new_bytes size)) [
    | inl q ↦ full (rw q)
    | inr (block, q) ↦
        let s = sound.new_size size block q in
        room (drop (length content) block) size
          (rw (q, e, f)
            (rw (copy_behind 0 [] block content refl (omega arith)) (
              ap (λ b'. ok (b', size))
                (pack_lem (content ++ drop (length content) block) content
                  (drop (length content) block) (length content) size refl refl
                  (omega (arith, length-drop (length content) block))))))
          (omega (arith, length-drop (length content) block))
          (omega (arith, length-drop (length content) block))
  ]

  pub move_to-Room :
      (b : Buffer) (content : List ℕ) (size : ℕ)
      → IsSound p
      → Contents b content
      → length content ≤ size
      → size ≤ max_size
      → Room (move_to p b size) content size
  move_to-Room b content size sound (unallocated e f) h k =
      moves b content size sound (rw (e, f)) (rw (e, f)) h k
  move_to-Room b content size sound (holds spare e l) h k =
      moves b content size sound (rw e)
        (rw e (
          front_lem content spare (length content) (omega arith)
          ∙ ap ok (take_all (length content) content (omega arith))))
        h k

  pub re_allocate_buffer-Room :
      (b : Buffer) (content : List ℕ) (n : ℕ)
      → IsSound p
      → Contents b content
      → length content ≤ n
      → n ≤ max_size
      → Room (re_allocate_buffer p b n) content n
  unfolding re_allocate_buffer
  re_allocate_buffer-Room b content n sound c h k = elim (Bool-cases (ltb n b.size)) [
    | inl t ↦ elim c [
      | unallocated e f ↦ absurd (true≢false (sym t ∙ rw e (le→ltb n 0 (omega arith))))
      | holds spare e l ↦
          room spare 0 (rw (re_allocate_buffer, t) (rw e refl))
            (omega (arith, ltb→lt n b.size t, ap (λ x. x.size) e)) l
    ]
    | inr t ↦ larger n (round_up_le n k).0 (
        rw (re_allocate_buffer, t)
          (move_to-Room b content (round_up n) sound c (omega (arith, (round_up_le n k).0))
            (round_up_le n k).1))
  ]

  pub de_allocate_buffer-Kept :
      (b : Buffer) (content : List ℕ) (n : ℕ)
      → IsSound p
      → Contents b content
      → length content ≤ n
      → n ≤ max_size
      → Kept (de_allocate_buffer p b n) content
  unfolding de_allocate_buffer
  de_allocate_buffer-Kept b content n sound c h k = elim (Bool-cases (ltb n (get_buffer_len b))) [
    | inl t ↦ kept b 0 (rw (de_allocate_buffer, t) refl) c
    | inr t ↦ elim (Bool-cases (ltb (round_up n) b.size)) [
      | inl u ↦ kept b 0 (rw (de_allocate_buffer, t, u) refl) c
      | inr u ↦ Room-Kept {n = round_up n} (
          rw (de_allocate_buffer, t, u)
            (move_to-Room b content (round_up n) sound c (omega (arith, (round_up_le n k).0))
              (round_up_le n k).1))
    ]
  ]
