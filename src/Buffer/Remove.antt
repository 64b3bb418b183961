-- ===== src/Buffer/Remove.antt =====
-- CBuffer::Read and Delete.
use windows_verifyserver.Prelude.{
  ℕ, ◌+◌, ◌-◌, ◌≤◌, ◌<◌, ◌≡◌, refl, ap, sym, ◌∙◌, List, [], ◌++◌, length, take, drop, length-append,
  length-take, length-drop, append_assoc, arith, min, inl, inr, ltb, le→ltb, if◌then◌else◌, ltb→lt,
  ltb→le, Bool-cases, ne→==, eq→==, suc, zero,
}
use windows_verifyserver.Prelude.Memory.{copy_behind, slice_within, drop_all, take_all}
use windows_verifyserver.Prelude.Results.{Result, ok, ◌>>=◌, err, bad_alloc}
use windows_verifyserver.Tcp.Platform.{Platform, IsSound}
use windows_verifyserver.Buffer.{
  Buffer, front, de_allocate_buffer, get_buffer_len, read, delete, shift_down, take_front,
}
use windows_verifyserver.Buffer.Contents.{
  Contents, unallocated, holds, pack, pack_lem, max_size, Outcome, done, no_memory, drop_within,
}
use windows_verifyserver.Buffer.Moves.{front_lem, sub32_lem, kept, lost, de_allocate_buffer-Kept}
use windows_verifyserver.Buffer.Append.{get_buffer_len-Contents, length-Contents}

min_right : (n : ℕ) (xs : List ℕ) → length xs < n → min n (length xs) ≡ length xs
min_right n xs h = omega arith

min_left : (n : ℕ) (xs : List ℕ) → n ≤ length xs → min n (length xs) ≡ n
min_left n xs h = omega arith

-- The bytes `out` are handed out and counted and `content` is left, or bad_alloc is thrown.
pub data Taken (r : Result (List ℕ × (Buffer × ℕ))) (out content : List ℕ) : Type 0 where
  taken : (b : Buffer) → Contents b content → r ≡ ok (out, (b, length out)) → Taken r out content
  throws : r ≡ err bad_alloc → Taken r out content

pub front-Contents :
    (b : Buffer) (content : List ℕ) (n : ℕ)
    → Contents b content
    → n ≤ length content
    → front b.base n ≡ ok (take n content)
front-Contents b content n (unallocated e f) h =
    rw (e, f, eq→== n 0 (omega (arith, ap length f)), take_all {A = ℕ} n [] (omega arith)) refl
front-Contents b content n (holds spare e l) h = rw e (front_lem content spare n h)

clip-front :
    (b : Buffer) (content : List ℕ) (n : ℕ)
    → Contents b content
    → front b.base (if ltb (get_buffer_len b) n then get_buffer_len b else n) ≡ ok (take n content)
clip-front b content n c = elim (Bool-cases (ltb (length content) n)) [
  | inl t ↦
      rw
        (
          get_buffer_len-Contents b content c,
          t,
          take_all n content (omega (arith, ltb→lt (length content) n t)),
        )
        (front-Contents b content (length content) c (omega arith)
          ∙ ap ok (take_all (length content) content (omega arith)))
  | inr f ↦
      rw (get_buffer_len-Contents b content c, f)
        (front-Contents b content n c (ltb→le (length content) n f))
]

module _ (p : Platform) where
  shift_down-drop :
      (content spare : List ℕ) (n : ℕ)
      → n ≤ length content
      → length content + length spare ≤ max_size
      → (b : Buffer) × (shift_down p (pack content spare) n ≡ ok b) × Contents b (drop n content)
  unfolding shift_down
  shift_down-drop content spare n h l =
      let block = content ++ spare in
      let rest = drop n content ++ spare in
      let tail = drop (length rest) block in
      (
        pack (drop n content) (spare ++ tail),
        rw
            (
              shift_down,
              sub32_lem (length content + length spare) n (omega arith) l,
              slice_within block n (length content + length spare - n)
                  (omega (arith, length-append content spare)),
              take_all (length content + length spare - n) (drop n block)
                  (omega (arith, length-append content spare, length-drop n block)),
              drop_within n content spare h,
              copy_behind 0 [] block rest refl (
                  omega (
                    arith,
                    length-append content spare,
                    length-append (drop n content) spare,
                    length-drop n content,
                  )),
            )
            (ap ok (
              pack_lem (rest ++ tail) (drop n content) (spare ++ tail) (length content - n)
                (length content + length spare) (append_assoc (drop n content) spare tail)
                (sym (length-drop n content))
                (omega (
                  arith,
                  length-append spare tail,
                  length-drop (length rest) block,
                  length-append content spare,
                  length-append (drop n content) spare,
                  length-drop n content,
                )))),
        holds (spare ++ tail) refl (
            omega (
              arith,
              length-append spare tail,
              length-drop (length rest) block,
              length-append content spare,
              length-append (drop n content) spare,
              length-drop n content,
            )),
      )

  -- DeAllocateBuffer at the end of an operation.
  settled :
      (b : Buffer) (content : List ℕ) (a : ℕ)
      → IsSound p
      → Contents b content
      → Outcome
          (do (b', _) ← de_allocate_buffer p b (get_buffer_len b); Result.ok (b', a))
          content
          a
  settled b content a sound c =
      elim (de_allocate_buffer-Kept p b content (get_buffer_len b) sound c
        (omega (arith, get_buffer_len-Contents b content c))
        (omega (arith, get_buffer_len-Contents b content c, length-Contents b content c))) [
          | kept b' n e c' ↦ done b' c' (rw e refl)
          | lost e ↦ no_memory (rw e refl)
        ]

  take_front-drop :
      (b : Buffer) (content : List ℕ) (n : ℕ)
      → IsSound p
      → Contents b content
      → n ≤ length content
      → Outcome (take_front p b n) (drop n content) n
  unfolding take_front
  take_front-drop b content zero sound c h = settled b content zero sound c
  take_front-drop b content (suc n) sound (unallocated e f) h = absurd (omega (arith, ap length f))
  take_front-drop b content (suc n) sound (holds spare e l) h =
      let s = shift_down-drop content spare (suc n) h l in
      rw (take_front, ne→== (suc n) 0 (omega arith), e, s.1)
        (settled s.0 (drop (suc n) content) (suc n) sound s.2)

  clip-drop :
      (b : Buffer) (content : List ℕ) (n : ℕ)
      → IsSound p
      → Contents b content
      → Outcome
          (take_front p b (if ltb (get_buffer_len b) n then get_buffer_len b else n))
          (drop n content)
          (min n (length content))
  clip-drop b content n sound c = elim (Bool-cases (ltb (length content) n)) [
    | inl t ↦
        rw
          (
            get_buffer_len-Contents b content c,
            t,
            min_right n content (ltb→lt (length content) n t),
            drop_all n content (omega (arith, ltb→lt (length content) n t)),
            sym (drop_all (length content) content (omega arith)),
          )
          (take_front-drop b content (length content) sound c (omega arith))
    | inr f ↦
        rw
          (get_buffer_len-Contents b content c, f, min_left n content (ltb→le (length content) n f))
          (take_front-drop b content n sound c (ltb→le (length content) n f))
  ]

  -- Delete takes up to n bytes from the front, as many as there are, and returns their number; it
  -- changes nothing and returns 0 when n is larger than the block. It may throw bad_alloc.
  delete-drop :
      (b : Buffer) (content : List ℕ) (n : ℕ)
      → IsSound p
      → Contents b content
      → Outcome
          (delete p b n)
          (if ltb b.size n then content else drop n content)
          (if ltb b.size n then 0 else min n (length content))
  unfolding delete
  delete-drop b content n sound c = elim (Bool-cases (ltb b.size n)) [
    | inl t ↦ rw (delete, t) (done b c refl)
    | inr f ↦ rw (delete, f) (clip-drop b content n sound c)
  ]

  -- Read of at most as many bytes as the block has hands out the first n of the contents, or all
  -- when there are fewer, returns their number and leaves the others, or throws bad_alloc.
  pub read-take :
      (b : Buffer) (content : List ℕ) (n : ℕ)
      → IsSound p
      → Contents b content
      → n ≤ b.size
      → Taken (read p b n) (take n content) (drop n content)
  unfolding read
  read-take b content n sound c h = elim (clip-drop b content n sound c) [
    | done b' c' e ↦ taken b' c' (
        rw (read, le→ltb b.size n h, clip-front b content n c, e, sym (length-take n content)) refl)
    | no_memory e ↦ throws (rw (read, le→ltb b.size n h, clip-front b content n c, e) refl)
  ]
