-- ===== src/GlobalFunc/Text.antt =====
-- What the conversions of GlobalFunc.cpp write.
use windows_verifyserver.Prelude.{
  ℕ, ◌+◌, ◌<◌, [], ◌∷◌, ◌==◌, ◌≤◌, ◌≡◌, refl, ap, ◌∙◌, List, ◌++◌, none, some, true, false, ltb,
  leb, if◌then◌else◌, length, length-append, length-replicate, drop, replicate, Bool-cases, inl,
  inr, arith,
}
use windows_verifyserver.Prelude.Counts.{count}
use windows_verifyserver.Prelude.Memory.{copy_at}
use windows_verifyserver.Prelude.Results.{ok, err, out_of_bounds}
use windows_verifyserver.GlobalFunc.{TextApi, c_text, utf8_to_unicode}

copy_front :
    (block bytes : List ℕ)
    → length bytes ≤ length block
    → copy_at block 0 bytes ≡ some (bytes ++ drop (length bytes) block)
unfolding copy_at
copy_front block bytes h =
    let b : leb (0 + length bytes) (length block) ≡ true = ground (arith, h) in
    let e : 0 + length bytes ≡ length bytes = omega arith in rw (copy_at, b, e) refl

-- A text that ends is read up to its 0.
c_text_ended :
    (before behind : List ℕ)
    → count 0 before ≡ 0
    → c_text (before ++ 0 ∷ behind) ≡ ok (before ++ 0 ∷ [])
unfolding c_text count
c_text_ended [] behind h = refl
c_text_ended (x ∷ before) behind h =
    let n : (x == 0) ≡ false = ground (arith, h) in
    rw (c_text, n, c_text_ended before behind (ground (arith, h))) refl

pub c_text-ends : (buf : List ℕ) → 0 < count 0 buf → (text : List ℕ) × (c_text buf ≡ ok text)
unfolding c_text count
c_text-ends [] h = absurd (omega arith)
c_text-ends (x ∷ xs) h = elim (Bool-cases (x == 0)) [
  | inl y ↦ (0 ∷ [], rw (c_text, y) refl)
  | inr n ↦
      let (text, e) = c_text-ends xs (ground (arith, h, n)) in (x ∷ text, rw (c_text, n, e) refl)
]

-- One that does not end is read behind its buffer.
pub c_text-overrun : (buf : List ℕ) → count 0 buf ≡ 0 → c_text buf ≡ err out_of_bounds
unfolding c_text count
c_text-overrun [] h = refl
c_text-overrun (x ∷ xs) h =
    let n : (x == 0) ≡ false = ground (arith, h) in
    rw (c_text, n, c_text-overrun xs (ground (arith, h))) refl

module _ (api : TextApi) where
  -- What is in the buffer behind GlobalUtf8ToUnicode.
  abbrev pub widened : List ℕ → List ℕ → ℕ → List ℕ
  widened text unicode len =
      api.to_wide text ++ drop (length (api.to_wide text)) (replicate len 0 ++ drop len unicode)

  pub utf8_to_unicode-read :
      (uft8 text unicode : List ℕ) (len : ℕ)
      → c_text uft8 ≡ ok text
      → len ≤ length unicode
      → utf8_to_unicode api uft8 unicode len
        ≡ ok (if ltb len (length (api.to_wide text)) then none else some (widened text unicode len))
  unfolding utf8_to_unicode
  utf8_to_unicode-read uft8 text unicode len c h =
      elim (Bool-cases (ltb len (length (api.to_wide text)))) [
        | inl y ↦ rw (utf8_to_unicode, c, y) refl
        | inr n ↦
            let r : length (replicate len 0) ≡ len = length-replicate len 0 in
            let first : copy_at unicode 0 (replicate len 0)
                ≡ some (replicate len 0 ++ drop len unicode) =
              copy_front unicode (replicate len 0) (omega (arith, r, h))
              ∙ ap (λ k. some (replicate len 0 ++ drop k unicode)) r in
            let fits : length (api.to_wide text) ≤ length (replicate len 0 ++ drop len unicode) =
              ground (arith, n, length-append (replicate len 0) (drop len unicode), r) in
            rw
              (
                utf8_to_unicode,
                c,
                n,
                first,
                copy_front (replicate len 0 ++ drop len unicode) (api.to_wide text) fits,
              )
              refl
      ]

  -- Of a buffer that holds a text, its 0 and other bytes behind it GlobalUtf8ToUnicode converts the
  -- text and the 0, and no more. Where this is longer than the length that the caller gives, it returns
  -- NULL. Otherwise it writes it, fills the rest of that length with zeros, and leaves what is behind
  -- that length. It stays in the wide buffer if this has the length that the caller gives.
  pub utf8_to_unicode-widened :
      (before behind unicode : List ℕ) (len : ℕ)
      → count 0 before ≡ 0
      → len ≤ length unicode
      → let wide = api.to_wide (before ++ 0 ∷ []) in
        utf8_to_unicode api (before ++ 0 ∷ behind) unicode len
        ≡ ok (
            if ltb len (length wide)
            then none
            else some (wide ++ drop (length wide) (replicate len 0 ++ drop len unicode)))
  utf8_to_unicode-widened before behind unicode len c h =
      utf8_to_unicode-read (before ++ 0 ∷ behind) (before ++ 0 ∷ []) unicode len
        (c_text_ended before behind c) h
