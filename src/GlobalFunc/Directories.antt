-- ===== src/GlobalFunc/Directories.antt =====
-- What CreateDirectoryMulti leaves of the directories on a path.
use windows_verifyserver.Prelude.{
  ℕ, ◌≡◌, refl, sym, ap, ◌∙◌, subst, List, [], ◌∷◌, ◌++◌, map, append_assoc, append-nil, none, some,
  true, false, if◌then◌else◌, Option-cases, Bool-cases, inl, inr,
}
use mathlib.Core.Bool.{true≢false}
use mathlib.Core.Option.{some-injective}
use windows_verifyserver.GlobalFunc.{
  FileApi, backslash, is_separator, ensure, create_each, create_directory_multi,
}

-- The functions of Windows do what they are documented to do: a directory that has been created is
-- there, and what was there stays.
pub record IsFileApi {S : Type 0} (api : FileApi S) : Type 0 where
  pub directory_exists : (s : S) (p : List ℕ) → api.is_directory s p ≡ true → api.exists s p ≡ true
  pub created : (s t : S) (p : List ℕ) → api.create_directory s p ≡ some t → api.exists t p ≡ true
  pub kept :
      (s t : S) (p q : List ℕ)
      → api.create_directory s p ≡ some t
      → api.exists s q ≡ true
      → api.exists t q ≡ true

abbrev pub normal : ℕ → ℕ
normal c = if is_separator c then backslash else c

module _ {S : Type 0} (api : FileApi S) (v : IsFileApi api) where
  -- What is there stays, and the path is there.
  record Ensured (s t : S) (p : List ℕ) : Type 0 where
    there : api.exists t p ≡ true
    stays : (q : List ℕ) → api.exists s q ≡ true → api.exists t q ≡ true

  ensure-Ensured : (s t : S) (p : List ℕ) → ensure api s p ≡ some t → Ensured s t p
  unfolding ensure
  ensure-Ensured s t p e = elim (Bool-cases (api.is_directory s p)) [
    | inl y ↦
        let m : s ≡ t = some-injective s t (sym (rw (ensure, y) refl) ∙ e) in
        subst (λ x. Ensured s x p) m (record { there = v.directory_exists s p y; stays = λ q h. h })
    | inr n ↦ elim (Bool-cases (api.exists s p)) [
      | inl y ↦
          let m : s ≡ t = some-injective s t (sym (rw (ensure, n, y) refl) ∙ e) in
          subst (λ x. Ensured s x p) m (record { there = y; stays = λ q h. h })
      | inr z ↦
          let c : api.create_directory s p ≡ some t = sym (rw (ensure, n, z) refl) ∙ e in
          record { there = v.created s t p c; stays = λ q h. v.kept s t p q c h }
    ]
  ]

  -- Each path that ends before a separator of `rest` is there.
  pub record Made (s t : S) (before rest q : List ℕ) : Type 0 where
    pub path : q ≡ before ++ map normal rest
    pub stays : (p : List ℕ) → api.exists s p ≡ true → api.exists t p ≡ true
    pub each :
        (xs : List ℕ) (c : ℕ) (ys : List ℕ)
        → rest ≡ xs ++ c ∷ ys
        → is_separator c ≡ true
        → api.exists t (before ++ map normal xs) ≡ true

  -- One more character before the rest.
  before-Made :
      (s u t : S) (before : List ℕ) (c : ℕ) (rest q : List ℕ)
      → ((p : List ℕ) → api.exists s p ≡ true → api.exists u p ≡ true)
      → (is_separator c ≡ true → api.exists u before ≡ true)
      → Made u t (before ++ normal c ∷ []) rest q
      → Made s t before (c ∷ rest) q
  before-Made s u t before c rest q h k m = record {
    path = m.path ∙ append_assoc before (normal c ∷ []) (map normal rest);
    stays = λ p e. m.stays p (h p e);
    each = each;
  }
    where
      each :
          (xs : List ℕ) (c' : ℕ) (ys : List ℕ)
          → c ∷ rest ≡ xs ++ c' ∷ ys
          → is_separator c' ≡ true
          → api.exists t (before ++ map normal xs) ≡ true
      each [] c' ys e b =
          let same : c' ≡ c = cc in
          ap (api.exists t) (append-nil before)
          ∙ m.stays before (k (ap is_separator (sym same) ∙ b))
      each (x ∷ xs) c' ys e b =
          let same : c ≡ x = cc in
          let tail : rest ≡ xs ++ c' ∷ ys = cc in
          ap (λ y. api.exists t (before ++ normal y ∷ map normal xs)) (sym same)
          ∙ ap (api.exists t) (sym (append_assoc before (normal c ∷ []) (map normal xs)))
          ∙ m.each xs c' ys tail b

  create_each-Made :
      (s t : S) (before rest q : List ℕ)
      → create_each api s before rest ≡ (t, q, true)
      → Made s t before rest q
  unfolding create_each
  create_each-Made s t before [] q e = record {
    path = ap (λ r. r.1) (sym e) ∙ sym (append-nil before);
    stays = λ p h. ap (λ r. api.exists r.0 p) (sym e) ∙ h;
    each = λ xs c ys m k. absurd (nowhere xs c ys m);
  }
    where
      nowhere : (xs : List ℕ) (c : ℕ) (ys : List ℕ) → [] ≡ xs ++ c ∷ ys → ⊥
      nowhere [] c ys m = absurd cc
      nowhere (x ∷ xs) c ys m = absurd cc
  create_each-Made s t before (c ∷ rest) q e = elim (Bool-cases (is_separator c)) [
    | inr n ↦
        let g : create_each api s (before ++ c ∷ []) rest ≡ (t, q, true) =
          sym (rw (create_each, n) refl) ∙ e in
        let d : normal c ≡ c = rw (normal, n) refl in
        before-Made s s t before c rest q (λ p h. h) (λ h. absurd (true≢false (sym h ∙ n)))
          (rw d (create_each-Made s t (before ++ c ∷ []) rest q g))
    | inl y ↦ elim (Option-cases (ensure api s before)) [
      | inl z ↦
          let g : (s, before, false) ≡ (t, q, true) = sym (rw (create_each, y, z) refl) ∙ e in
          absurd (true≢false (sym (ap (λ r. r.2) g)))
      | inr (u, f) ↦
          let g : create_each api u (before ++ backslash ∷ []) rest ≡ (t, q, true) =
            sym (rw (create_each, y, f) refl) ∙ e in
          let d : normal c ≡ backslash = rw (normal, y) refl in
          let w = ensure-Ensured s u before f in
          before-Made s u t before c rest q w.stays (λ h. w.there)
            (rw d (create_each-Made u t (before ++ backslash ∷ []) rest q g))
    ]
  ]

  -- Where CreateDirectoryMulti returns TRUE, each path that ends before a separator of its argument,
  -- a backslash behind it included, is there, the argument has backslashes for its separators, and
  -- what was there before still is.
  pub create_directory_multi-Made :
      (s t : S) (path q : List ℕ)
      → create_directory_multi api s path ≡ (t, q, true)
      → Made s t [] (api.add_backslash (api.remove_backslash path)) q
  unfolding create_directory_multi
  create_directory_multi-Made s t path q e =
      create_each-Made s t [] (api.add_backslash (api.remove_backslash path)) q e

module _ {S : Type 0} (api : FileApi S) where
  -- Where nothing has the empty name, nor can be made with it, CreateDirectoryMulti returns FALSE for
  -- every path that begins with a separator, creates nothing, and empties the caller's path.
  create_directory_multi-leading :
      (s : S) (path rest : List ℕ) (c : ℕ)
      → api.is_directory s [] ≡ false
      → api.exists s [] ≡ false
      → api.create_directory s [] ≡ none
      → api.add_backslash (api.remove_backslash path) ≡ c ∷ rest
      → is_separator c ≡ true
      → create_directory_multi api s path ≡ (s, [], false)
  unfolding create_directory_multi create_each ensure
  create_directory_multi-leading s path rest c d x m e b =
      rw (create_directory_multi, e, create_each, b, ensure, d, x, m) refl
