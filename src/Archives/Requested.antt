-- ===== src/Archives/Requested.antt =====
-- `raise_if_path_traversal` of backend/substrapp/utils/__init__.py, which backend/api/views/datasample.py
-- applies to the names in an archive: the test by prefix, with a separator behind the directory.
use substra_backend.Prelude.{
  ℕ, Bool, true, false, ◌&&◌, ◌||◌, ◌==◌, ==_iff, ◌≡◌, refl, sym, ap, subst, inl, inr, Option, none,
  some, List, [], ◌∷◌, ◌++◌, All, if◌then◌else◌, arith, all, Bool-cases,
}
use substra_backend.Archives.{Part, slash, MemberName, is_empty, render, render_parts, starts_with}
use substra_backend.Archives.Prefix.{
  has_slash, AreParts, same_or_longer, render_parts-is_tail, is_tail,
}

-- os.path.commonprefix of two texts
abbrev pub commonprefix : List ℕ → List ℕ → List ℕ
commonprefix (c ∷ cs) (d ∷ ds) = if c == d then c ∷ commonprefix cs ds else []
commonprefix _ _ = []

abbrev pub same_text : List ℕ → List ℕ → Bool
same_text [] [] = true
same_text (c ∷ cs) (d ∷ ds) = (c == d) && same_text cs ds
same_text _ _ = false

-- os.path.join(os.path.realpath(to_directory), "")
abbrev pub safe_directory : List Part → List ℕ
safe_directory directory = render_parts directory ++ (slash ∷ [])

unfoldable pub is_valid_path : List Part → List Part → Bool
is_valid_path directory real =
    same_text (commonprefix (render real) (safe_directory directory)) (safe_directory directory)
    || same_text (render real ++ (slash ∷ [])) (safe_directory directory)

-- The path that is not safe, if there is one; the paths and the directory are resolved by os.path.realpath.
unfoldable pub raise_if_path_traversal :
    (MemberName → List Part) → List MemberName → List Part → Option MemberName
raise_if_path_traversal realpath [] directory = none
raise_if_path_traversal realpath (p ∷ ps) directory =
    if is_valid_path directory (realpath p)
    then raise_if_path_traversal realpath ps directory
    else some p

-- The path is the directory, or below it.
abbrev pub Inside : List Part → List Part → Type 0
Inside directory path = (rest : List Part) × (path ≡ directory ++ rest)

-- The names of a directory, none of them empty.
abbrev pub AreNames : List Part → Type 0
AreNames directory = All (λ p. is_empty p ≡ false) directory

commonprefix-starts_with :
    (text prefix : List ℕ)
    → same_text (commonprefix text prefix) prefix ≡ true
    → starts_with text prefix ≡ true
commonprefix-starts_with text [] h = refl
commonprefix-starts_with [] (d ∷ ds) h = cc
commonprefix-starts_with (c ∷ cs) (d ∷ ds) h =
    ground (arith, ==_iff c d, commonprefix-starts_with cs ds)

same_text-starts_with :
    (text prefix : List ℕ) → same_text text prefix ≡ true → starts_with text prefix ≡ true
same_text-starts_with text [] h = refl
same_text-starts_with [] (d ∷ ds) h = cc
same_text-starts_with (c ∷ cs) (d ∷ ds) h = ground (arith, same_text-starts_with cs ds)

-- No text of separators alone has the text of a directory below the root as a prefix.
no_prefix :
    (c : ℕ) (d : Part) (s t : List ℕ)
    → has_slash (c ∷ d) ≡ false
    → all (λ x. x == slash) t ≡ true
    → ¬ (starts_with t (slash ∷ c ∷ (d ++ s)) ≡ true)
no_prefix c d s [] h a p = ground arith
no_prefix c d s (x ∷ []) h a p = ground arith
no_prefix c d s (x ∷ y ∷ t) h a p = ground (arith, ==_iff y c, ==_iff y slash, ==_iff c slash)

is_tail-append :
    (r t : List ℕ) → is_tail r ≡ true → all (λ x. x == slash) t ≡ true → is_tail (r ++ t) ≡ true
is_tail-append [] [] h a = refl
is_tail-append [] (x ∷ t) h a = ground arith
is_tail-append (x ∷ r) t h a = h

no_end : (r : List ℕ) → ¬ (r ++ (slash ∷ []) ≡ [])
no_end [] h = cc
no_end (x ∷ r) h = cc

append_assoc : (xs ys zs : List ℕ) → (xs ++ ys) ++ zs ≡ xs ++ (ys ++ zs)
append_assoc [] ys zs = refl
append_assoc (x ∷ xs) ys zs = ap (λ t. x ∷ t) (append_assoc xs ys zs)

append_nil : (xs : List ℕ) → xs ++ [] ≡ xs
append_nil [] = refl
append_nil (x ∷ xs) = ap (λ t. x ∷ t) (append_nil xs)

starts_with-Inside :
    (ds ps : List Part) (t : List ℕ)
    → AreParts ds
    → AreNames ds
    → AreParts ps
    → all (λ x. x == slash) t ≡ true
    → starts_with (render_parts ps ++ t) (safe_directory ds) ≡ true
    → Inside ds ps
starts_with-Inside [] ps t hd nd hp a h = (ps, refl)
starts_with-Inside ([] ∷ ds) ps t hd nd hp a h = cc
starts_with-Inside ((c ∷ d) ∷ ds) [] t hd nd hp a h = absurd (
    no_prefix c d (render_parts ds ++ (slash ∷ [])) t hd.0 a (
      subst (λ x. starts_with t (slash ∷ c ∷ x) ≡ true)
        (append_assoc d (render_parts ds) (slash ∷ [])) h))
starts_with-Inside ((c ∷ d) ∷ ds) (p ∷ ps) t hd nd hp a h =
    elim (same_or_longer p (c ∷ d) (render_parts ps ++ t) (render_parts ds ++ (slash ∷ [])) hp.0
      hd.0 (is_tail-append (render_parts ps) t (render_parts-is_tail ps) a)
      (is_tail-append (render_parts ds) (slash ∷ []) (render_parts-is_tail ds) refl)
      (subst (λ x. starts_with x ((c ∷ d) ++ (render_parts ds ++ (slash ∷ []))) ≡ true)
        (append_assoc p (render_parts ps) t)
        (subst (λ x. starts_with ((p ++ render_parts ps) ++ t) x ≡ true)
          (append_assoc (c ∷ d) (render_parts ds) (slash ∷ [])) h))) [
            | inl (e, below) ↦
                let (rest, inside) = starts_with-Inside ds ps t hd.1 nd.1 hp.1 a below in
                (rest, rw (e, inside) refl)
            | inr (e, _) ↦ absurd (no_end (render_parts ds) e)
          ]

is_valid_path-Inside :
    (ds ps : List Part)
    → AreParts ds
    → AreNames ds
    → AreParts ps
    → is_valid_path ds ps ≡ true
    → Inside ds ps
unfolding is_valid_path
is_valid_path-Inside ds [] hd nd hp h =
    elim (Bool-cases (same_text (slash ∷ slash ∷ []) (safe_directory ds))) [
      | inl below ↦
          starts_with-Inside ds [] (slash ∷ slash ∷ []) hd nd hp refl
            (same_text-starts_with (slash ∷ slash ∷ []) (safe_directory ds) below)
      | inr differs ↦
          starts_with-Inside ds [] (slash ∷ []) hd nd hp refl
            (commonprefix-starts_with (slash ∷ []) (safe_directory ds) (ground arith))
    ]
is_valid_path-Inside ds (p ∷ ps) hd nd hp h =
    let text = render_parts (p ∷ ps) in
    elim (Bool-cases (same_text (text ++ (slash ∷ [])) (safe_directory ds))) [
      | inl below ↦
          starts_with-Inside ds (p ∷ ps) (slash ∷ []) hd nd hp refl
            (same_text-starts_with (text ++ (slash ∷ [])) (safe_directory ds) below)
      | inr differs ↦ starts_with-Inside ds (p ∷ ps) [] hd nd hp refl (
          subst (λ x. starts_with x (safe_directory ds) ≡ true) (sym (append_nil text))
            (commonprefix-starts_with text (safe_directory ds) (ground arith)))
    ]

-- Where `raise_if_path_traversal` raises nothing, each of the paths is, once resolved, the directory or
-- below it. Conditions: resolved paths have no separator inside a name, and the directory has no empty
-- name.
pub raise_if_path_traversal-Inside :
    (realpath : MemberName → List Part) (paths : List MemberName) (directory : List Part)
    → AreParts directory
    → AreNames directory
    → All (λ p. AreParts (realpath p)) paths
    → raise_if_path_traversal realpath paths directory ≡ none
    → All (λ p. Inside directory (realpath p)) paths
unfolding raise_if_path_traversal
raise_if_path_traversal-Inside realpath [] directory hd nd hp h = tt
raise_if_path_traversal-Inside realpath (p ∷ ps) directory hd nd hp h = (
  is_valid_path-Inside directory (realpath p) hd nd hp.0 (ground arith),
  raise_if_path_traversal-Inside realpath ps directory hd nd hp.1 (ground arith),
)
