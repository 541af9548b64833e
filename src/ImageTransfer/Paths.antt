-- ===== src/ImageTransfer/Paths.antt =====
-- The dict of the paths of the manifests that `from_images` of backend/image_transfer/common.py makes,
-- where no image was transferred before.
use substra_backend.Prelude.{
  true, false, ◌≡◌, refl, sym, ap, ◌∙◌, ◌⊎◌, inl, inr, Option, none, some, List, [], ◌∷◌, map, All,
  In, Bool-cases,
}
use substra_backend.ImageTransfer.Names.{Text, text_eq, text_eq-eq, text_eq_refl, normalize_name}
use substra_backend.ImageTransfer.{Member, manifests}
use substra_backend.ImageTransfer.Encoder.{
  Paths, set_path, get_path, from_images, get_images_not_transferred_yet,
}

abbrev pub path_of : Text → Option Member
path_of image = some (manifests (normalize_name image))

abbrev pub names : Paths → List Text
names ps = map (λ p. p.0) ps

-- Each image has the path of its own name.
abbrev pub OwnPaths : Paths → Type 0
OwnPaths ps = All (λ p. p.1 ≡ path_of p.0) ps

set_path-OwnPaths :
    (ps : Paths) (name : Text) → OwnPaths ps → OwnPaths (set_path name (path_of name) ps)
unfolding set_path
set_path-OwnPaths [] name h = (refl, tt)
set_path-OwnPaths ((other, p) ∷ ps) name h = elim (Bool-cases (text_eq other name)) [
  | inl same ↦ rw same (ap path_of (sym (text_eq-eq other name same)), h.1)
  | inr differs ↦ rw differs (h.0, set_path-OwnPaths ps name h.1)
]

set_path-In :
    (ps : Paths) (name : Text) (path : Option Member)
    → In name (names (set_path name path ps))
      × ((n : Text) → In n (names ps) → In n (names (set_path name path ps)))
      × ((n : Text) → In n (names (set_path name path ps)) → (n ≡ name) ⊎ In n (names ps))
unfolding set_path
set_path-In [] name path = (inl refl, λ n h. absurd h, λ n h. h)
set_path-In ((other, p) ∷ ps) name path = elim (Bool-cases (text_eq other name)) [
  | inl same ↦ rw same (inl (sym (text_eq-eq other name same)), λ n h. h, λ n h. inr h)
  | inr differs ↦
      let (own, kept, only) = set_path-In ps name path in
      rw differs (
        inr own,
        λ n h. elim h [ inl here ↦ inl here | inr later ↦ inr (kept n later) ],
        λ n h. elim h [
          | inl here ↦ inr (inl here)
          | inr later ↦ elim (only n later) [ inl new ↦ inl new | inr old ↦ inr (inr old) ]
        ],
      )
]

pub from_images-OwnPaths :
    (images : List Text) (ps : Paths) → OwnPaths ps → OwnPaths (from_images images [] ps)
unfolding from_images
from_images-OwnPaths [] ps h = h
from_images-OwnPaths (i ∷ is) ps h = from_images-OwnPaths is _ (set_path-OwnPaths ps i h)

from_images_kept :
    (images : List Text) (ps : Paths) (n : Text)
    → In n (names ps)
    → In n (names (from_images images [] ps))
unfolding from_images
from_images_kept [] ps n h = h
from_images_kept (i ∷ is) ps n h = from_images_kept is _ n ((set_path-In ps i (path_of i)).1 n h)

pub from_images-In :
    (images : List Text) (ps : Paths) (n : Text)
    → In n images
    → In n (names (from_images images [] ps))
unfolding from_images
from_images-In [] ps n h = absurd h
from_images-In (i ∷ is) ps n (inl here) =
    from_images_kept is _ n (rw here (set_path-In ps i (path_of i)).0)
from_images-In (i ∷ is) ps n (inr later) = from_images-In is _ n later

pub from_images_only :
    (images : List Text) (ps : Paths) (n : Text)
    → In n (names (from_images images [] ps))
    → In n images ⊎ In n (names ps)
unfolding from_images
from_images_only [] ps n h = inr h
from_images_only (i ∷ is) ps n h = elim (from_images_only is _ n h) [
  | inl later ↦ inl (inr later)
  | inr set ↦ elim ((set_path-In ps i (path_of i)).2 n set) [
    | inl here ↦ inl (inl here)
    | inr old ↦ inr old
  ]
]

pub get_images-names : (ps : Paths) → OwnPaths ps → get_images_not_transferred_yet ps ≡ names ps
unfolding get_images_not_transferred_yet
get_images-names [] h = refl
get_images-names ((i, none) ∷ ps) h = cc
get_images-names ((i, some p) ∷ ps) h = ap (λ t. i ∷ t) (get_images-names ps h.1)

pub get_path-own :
    (ps : Paths) (n : Text) → OwnPaths ps → In n (names ps) → get_path n ps ≡ some (path_of n)
unfolding get_path
get_path-own [] n h m = absurd m
get_path-own ((i, p) ∷ ps) n h m = elim (Bool-cases (text_eq i n)) [
  | inl same ↦ rw same (ap some (h.0 ∙ ap path_of (text_eq-eq i n same)))
  | inr differs ↦ elim m [
    | inl here ↦ absurd (differ i n differs (sym here))
    | inr later ↦ rw differs (get_path-own ps n h.1 later)
  ]
]
  where
    clash : ¬ (true ≡ false)
    clash e = cc

    differ : (x y : Text) → text_eq x y ≡ false → ¬ (x ≡ y)
    differ x y f e = clash (sym (text_eq_refl x) ∙ ap (text_eq x) e ∙ f)
