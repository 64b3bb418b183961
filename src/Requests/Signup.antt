-- ===== src/Requests/Signup.antt =====
-- What becomes of a request to sign up.
use windows_verifyserver.Prelude.{
  ℕ, ◌+◌, ◌<◌, ◌⊎◌, ◌≡◌, refl, List, some, false, ltb, if◌then◌else◌, length, length-replicate,
  replicate, Bool-cases, Option-cases, inl, inr, arith,
}
use windows_verifyserver.Prelude.Counts.{count}
use windows_verifyserver.Prelude.Results.{ok, err, out_of_bounds}
use windows_verifyserver.GlobalFunc.{TextApi, c_text, utf8_to_unicode}
use windows_verifyserver.GlobalFunc.Text.{
  widened, utf8_to_unicode-read, c_text-ends, c_text-overrun,
}
use windows_verifyserver.Requests.{
  Json, Parser, unicode_of, tree_is_type, is_type, tree_parse_data, parse_content, parse_data,
}

module _ {Tree : Type 0} (json : Json Tree) (text : TextApi) (statement : List ℕ) where
  -- The text that cJSON gets: the empty one where the payload's is longer than 1022 characters.
  abbrev pub read_text : List ℕ → List ℕ
  read_text payload =
      if ltb 1023 (length (text.to_wide payload))
      then replicate 1024 0
      else widened text payload (replicate 1024 0) 1023

  unicode_of-read_text :
      (payload read : List ℕ)
      → c_text payload ≡ ok read
      → unicode_of json text statement payload ≡ ok (read_text read)
  unfolding unicode_of
  unicode_of-read_text payload read c =
      let e =
        utf8_to_unicode-read text payload read (replicate 1024 0) 1023 c
          (omega (arith, length-replicate {A = ℕ} 1024 0)) in
      elim (Bool-cases (ltb 1023 (length (text.to_wide read)))) [
        | inl y ↦ rw (unicode_of, e, y) refl
        | inr n ↦ rw (unicode_of, e, n) refl
      ]

  is_type-tree :
      (s : Parser) (payload read : List ℕ) (root : Tree)
      → c_text payload ≡ ok read
      → json.parse (read_text read) ≡ some root
      → is_type json text statement s payload
        ≡ ok (tree_is_type json text statement (record s { trees = s.trees + 1 }) root)
  unfolding is_type
  is_type-tree s payload read root c e = rw (is_type, unicode_of-read_text payload read c, e) refl

  parse_content-tree :
      (s : Parser) (payload read : List ℕ) (root : Tree)
      → c_text payload ≡ ok read
      → json.parse (read_text read) ≡ some root
      → parse_content json text statement s payload
        ≡ ok (tree_parse_data json text statement (record s { trees = s.trees + 1 }) root, false)
  unfolding parse_content
  parse_content-tree s payload read root c e =
      rw (parse_content, unicode_of-read_text payload read c, e) refl

  parse_data-ended :
      (s : Parser) (payload read : List ℕ)
      → c_text payload ≡ ok read
      → (t : Parser) × (parse_data json text statement s payload ≡ ok (t, false))
  unfolding parse_data is_type
  parse_data-ended s payload read c = elim (Option-cases (json.parse (read_text read))) [
    | inl e ↦ (s, rw (parse_data, is_type, unicode_of-read_text payload read c, e) refl)
    | inr (root, e) ↦
        let r = tree_is_type json text statement (record s { trees = s.trees + 1 }) root in
        elim (Bool-cases r.1) [
          | inr n ↦ (r.0, rw (parse_data, is_type-tree s payload read root c e, n) refl)
          | inl y ↦ (
            tree_parse_data json text statement (record r.0 { trees = r.0.trees + 1 }) root,
            rw (parse_data, is_type-tree s payload read root c e, y)
                (parse_content-tree r.0 payload read root c e),
          )
        ]
  ]

  -- For a payload that has a 0 ParseData comes to its end without an access outside its arrays, and
  -- answers false, to a request to sign up as to any other. A payload without a 0 is read behind its
  -- end, although its length is an argument.
  pub parse_data-refuses :
      (s : Parser) (payload : List ℕ)
      → ((0 < count 0 payload)
          × (t : Parser) × (parse_data json text statement s payload ≡ ok (t, false)))
        ⊎ ((count 0 payload ≡ 0) × (parse_data json text statement s payload ≡ err out_of_bounds))
  unfolding parse_data is_type unicode_of utf8_to_unicode
  parse_data-refuses s payload = elim (Bool-cases (ltb 0 (count 0 payload))) [
    | inl y ↦
        let h : 0 < count 0 payload = ground (arith, y) in
        let (read, c) = c_text-ends payload h in
        let (t, e) = parse_data-ended s payload read c in inl (h, t, e)
    | inr n ↦
        let h : count 0 payload ≡ 0 = ground (arith, n) in
        inr
          (h, rw (parse_data, is_type, unicode_of, utf8_to_unicode, c_text-overrun payload h) refl)
  ]
