-- ===== src/ImageTransfer/Names.antt =====
-- The names of images in backend/image_transfer/common.py, as lists of characters.
use substra_backend.Prelude.{
  ℕ, Bool, true, false, ◌&&◌, ◌==◌, ◌≡◌, refl, ap, sym, Option, none, some, List, [], ◌∷◌, ◌++◌,
  if◌then◌else◌, arith, ==_iff, ==_refl, Bool-cases, or_else, inl, inr,
}

abbrev pub Text : Type 0
Text = List ℕ

abbrev pub colon : ℕ
colon = 58

abbrev pub slash : ℕ
slash = 47

abbrev pub underscore : ℕ
underscore = 95

abbrev pub text_eq : Text → Text → Bool
text_eq [] [] = true
text_eq (x ∷ xs) (y ∷ ys) = (x == y) && text_eq xs ys
text_eq _ _ = false

-- docker_image.replace("/", "_")
unfoldable pub normalize_name : Text → Text
normalize_name [] = []
normalize_name (c ∷ cs) = (if c == slash then underscore else c) ∷ normalize_name cs

-- docker_image_name.split(":", 1): what stands before the first colon, and what stands behind it, if
-- there is a colon
unfoldable pub get_repo_and_tag : Text → Text × Option Text
get_repo_and_tag [] = ([], none)
get_repo_and_tag (c ∷ cs) =
    let (repo, tag) = get_repo_and_tag cs in if c == colon then ([], some cs) else (c ∷ repo, tag)

pub text_eq-eq : (xs ys : Text) → text_eq xs ys ≡ true → xs ≡ ys
text_eq-eq [] [] h = refl
text_eq-eq [] (y ∷ ys) h = cc
text_eq-eq (x ∷ xs) [] h = cc
text_eq-eq (x ∷ xs) (y ∷ ys) h = ground (arith, ==_iff x y, text_eq-eq xs ys)

pub text_eq_refl : (xs : Text) → text_eq xs xs ≡ true
text_eq_refl [] = refl
text_eq_refl (x ∷ xs) = rw (==_refl x, text_eq_refl xs) refl

-- The repository and the tag, joined by a colon, are the name.
pub get_repo_and_tag-join :
    (name repo tag : Text) → get_repo_and_tag name ≡ (repo, some tag) → name ≡ repo ++ (colon ∷ tag)
unfolding get_repo_and_tag
get_repo_and_tag-join [] repo tag h = cc
get_repo_and_tag-join (c ∷ cs) repo tag h = elim (Bool-cases (c == colon)) [
  | inl is_colon ↦
      let e = rw is_colon at h in
      let here : repo ≡ [] = sym (ap (λ p. p.0) e) in
      let rest : some tag ≡ some cs = sym (ap (λ p. p.1) e) in
      rw (here, (==_iff c colon).0 is_colon) (ap (λ t. colon ∷ or_else t []) (sym rest))
  | inr other ↦
      let e = rw other at h in
      let here : repo ≡ c ∷ (get_repo_and_tag cs).0 = sym (ap (λ p. p.0) e) in
      let ih =
        get_repo_and_tag-join cs (get_repo_and_tag cs).0 tag
          (ap (λ t. ((get_repo_and_tag cs).0, t)) (ap (λ p. p.1) e)) in
      rw here (ap (λ t. c ∷ t) ih)
]
