-- ===== src/Access/Permissions.antt =====
-- `permissions_intersect` and `permissions_union` of backend/api/views/utils.py.
use substra_backend.Prelude.{
  ℕ, Bool, true, false, ◌&&◌, ◌||◌, ◌==◌, ◌≡◌, refl, ap, ◌∙◌, Option, none, some, List, [], ◌∷◌,
  ◌++◌, filter, any, if◌then◌else◌, is_some, arith, ==_iff, ==_refl, Bool-cases, inl, inr,
}

-- A dict with the key "public" and, it may be, the key "authorized_ids".
pub record Permission : Type 0 where
  pub public : Bool
  pub authorized_ids : Option (List ℕ)

-- What the dict means: whether an organization may use the asset.
abbrev pub allows : Permission → ℕ → Bool
allows p id =
    p.public || (elim p.authorized_ids [ none ↦ false | some ids ↦ any (λ i. i == id) ids ])

-- A dict that is not public has a list.
abbrev pub is_complete : Permission → Bool
is_complete p = p.public || is_some p.authorized_ids

abbrev everyone : Permission
everyone = record { public = true; authorized_ids = none }

abbrev only : List ℕ → Permission
only ids = record { public = false; authorized_ids = some ids }

-- set(xs).intersection(set(ys)) and set(xs).union(set(ys)), in the order in which they are found: the
-- order of a set is not specified, and nothing here depends on it
abbrev pub intersection : List ℕ → List ℕ → List ℕ
intersection xs ys = filter (λ x. any (λ y. y == x) ys) xs

abbrev pub union : List ℕ → List ℕ → List ℕ
union xs ys = xs ++ filter (λ y. if any (λ x. x == y) xs then false else true) ys

-- p["authorized_ids"], which may raise a KeyError
abbrev pub only_of : Option (List ℕ) → Option Permission
only_of none = none
only_of (some ids) = some (only ids)

abbrev pub combine :
    (List ℕ → List ℕ → List ℕ) → Option (List ℕ) → Option (List ℕ) → Option Permission
combine f (some xs) (some ys) = some (only (f xs ys))
combine f _ _ = none

-- None is a KeyError.
unfoldable pub permissions_intersect : Permission → Permission → Option Permission
permissions_intersect x y =
    if x.public && y.public
    then some everyone
    else if x.public
    then only_of y.authorized_ids
    else if y.public
    then only_of x.authorized_ids
    else combine intersection x.authorized_ids y.authorized_ids

unfoldable pub permissions_union : Permission → Permission → Option Permission
permissions_union x y =
    if x.public || y.public then some everyone else combine union x.authorized_ids y.authorized_ids

-- The dict that a function returns gives an organization this right.
abbrev pub GivesRight : Option Permission → ℕ → Bool → Type 0
GivesRight none id right = ⊥
GivesRight (some p) id right = (allows p id ≡ right) × (is_complete p ≡ true)

-- The test decides alike on equal numbers.
any-filter :
    (p : ℕ → Bool) (xs : List ℕ) (id : ℕ)
    → any (λ i. i == id) (filter p xs) ≡ (p id && any (λ i. i == id) xs)
any-filter p [] id = go (p id)
  where
    go : (b : Bool) → false ≡ (b && false)
    go true = refl
    go false = refl
any-filter p (x ∷ xs) id = elim (Bool-cases (x == id)) [
  | inl same ↦ rw (← (==_iff x id).0 same) (ground (arith, ==_refl x, any-filter p xs x))
  | inr differs ↦ ground (arith, any-filter p xs id)
]

any-append :
    (xs ys : List ℕ) (id : ℕ)
    → any (λ i. i == id) (xs ++ ys) ≡ any (λ i. i == id) xs || any (λ i. i == id) ys
any-append [] ys id = refl
any-append (x ∷ xs) ys id = ground (arith, any-append xs ys id)

and_true : (b : Bool) → b ≡ (b && true)
and_true true = refl
and_true false = refl

or_true : (b : Bool) → true ≡ (b || true)
or_true true = refl
or_true false = refl

and_comm : (a b : Bool) → (a && b) ≡ (b && a)
and_comm true true = refl
and_comm true false = refl
and_comm false true = refl
and_comm false false = refl

intersection_lem :
    (xs ys : List ℕ) (id : ℕ)
    → any (λ i. i == id) (intersection xs ys) ≡ (any (λ i. i == id) xs && any (λ i. i == id) ys)
intersection_lem xs ys id =
    any-filter (λ x. any (λ y. y == x) ys) xs id
    ∙ and_comm (any (λ y. y == id) ys) (any (λ i. i == id) xs)

union_lem :
    (xs ys : List ℕ) (id : ℕ)
    → any (λ i. i == id) (union xs ys) ≡ (any (λ i. i == id) xs || any (λ i. i == id) ys)
union_lem xs ys id =
    any-append xs (filter (λ y. if any (λ x. x == y) xs then false else true) ys) id
    ∙ ap (λ b. any (λ i. i == id) xs || b)
        (any-filter (λ y. if any (λ x. x == y) xs then false else true) ys id)
    ∙ absorb (any (λ i. i == id) xs) (any (λ i. i == id) ys)
  where
    absorb : (a b : Bool) → (a || ((if a then false else true) && b)) ≡ (a || b)
    absorb true b = refl
    absorb false b = refl

-- An organization may use what is the intersection exactly where both dicts let it, and the dict that
-- `permissions_intersect` returns is complete. Condition: both dicts have a list where they are not
-- public.
pub permissions_intersect-allows :
    (x y : Permission) (id : ℕ)
    → is_complete x ≡ true
    → is_complete y ≡ true
    → GivesRight (permissions_intersect x y) id (allows x id && allows y id)
unfolding permissions_intersect
permissions_intersect-allows x y id h g = go x.public x.authorized_ids y.public y.authorized_ids h g
  where
    go :
        (p : Bool) (xs : Option (List ℕ)) (q : Bool) (ys : Option (List ℕ))
        → (p || is_some xs) ≡ true
        → (q || is_some ys) ≡ true
        → GivesRight
            (permissions_intersect
              (record { public = p; authorized_ids = xs })
              (record { public = q; authorized_ids = ys }))
            id
            (allows (record { public = p; authorized_ids = xs }) id
              && allows (record { public = q; authorized_ids = ys }) id)
    go true xs true ys h g = (refl, refl)
    go true xs false (some ys) h g = (refl, refl)
    go true xs false none h g = cc
    go false (some xs) true ys h g = (and_true _, refl)
    go false none q ys h g = cc
    go false (some xs) false none h g = cc
    go false (some xs) false (some ys) h g = (intersection_lem xs ys id, refl)

-- An organization may use what is the union exactly where one of the dicts lets it, and the dict that
-- `permissions_union` returns is complete. Condition: both dicts have a list where they are not public.
pub permissions_union-allows :
    (x y : Permission) (id : ℕ)
    → is_complete x ≡ true
    → is_complete y ≡ true
    → GivesRight (permissions_union x y) id (allows x id || allows y id)
unfolding permissions_union
permissions_union-allows x y id h g = go x.public x.authorized_ids y.public y.authorized_ids h g
  where
    go :
        (p : Bool) (xs : Option (List ℕ)) (q : Bool) (ys : Option (List ℕ))
        → (p || is_some xs) ≡ true
        → (q || is_some ys) ≡ true
        → GivesRight
            (permissions_union
              (record { public = p; authorized_ids = xs })
              (record { public = q; authorized_ids = ys }))
            id
            (allows (record { public = p; authorized_ids = xs }) id
              || allows (record { public = q; authorized_ids = ys }) id)
    go true xs q ys h g = (refl, refl)
    go false (some xs) true ys h g = (or_true _, refl)
    go false none true ys h g = cc
    go false none false ys h g = cc
    go false (some xs) false none h g = cc
    go false (some xs) false (some ys) h g = (union_lem xs ys id, refl)
