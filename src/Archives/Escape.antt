-- ===== src/Archives/Escape.antt =====
-- Which members the checks of backend/substrapp/utils/tarsafe.py let through.
use substra_backend.Prelude.{
  ℕ, Bool, true, false, ◌&&◌, ◌||◌, not, ==_iff, ◌≡◌, refl, ap, ◌∙◌, none, List, [], ◌∷◌, ◌++◌, All,
  arith,
}
use substra_backend.Archives.{
  Part, dot, MemberName, Member, MemberKind, regular, symlink, hardlink, device, fifo, is_empty,
  is_dot, is_dotdot, drop_last, abspath, render, render_parts, starts_with, is_traversal_attempt,
  check_kind, safetar_check,
}
use substra_backend.Archives.Prefix.{AreParts, Accepted, is_traversal_attempt-Accepted}

-- The names of the member have no separator inside a part.
abbrev pub AreKindParts : MemberKind → Type 0
AreKindParts (hardlink linkname) = AreParts linkname.parts
AreKindParts _ = Unit

abbrev pub AreMemberParts : Member → Type 0
AreMemberParts m = AreParts m.name.parts × AreKindParts m.kind

abbrev pub AcceptedKind : List Part → MemberKind → Type 0
AcceptedKind directory regular = Unit
AcceptedKind directory symlink = ⊥
AcceptedKind directory (hardlink linkname) = Accepted directory (abspath directory linkname)
AcceptedKind directory device = ⊥
AcceptedKind directory fifo = Unit

abbrev pub AcceptedMember : List Part → Member → Type 0
AcceptedMember directory m =
    Accepted directory (abspath directory m.name) × AcceptedKind directory m.kind

module _ (d : Part) (ds : List Part) (full : is_empty d ≡ false) (h : AreParts (d ∷ ds)) where
  check_kind-AcceptedKind :
      (kind : MemberKind)
      → AreKindParts kind
      → check_kind (d ∷ ds) kind ≡ none
      → AcceptedKind (d ∷ ds) kind
  unfolding check_kind
  check_kind-AcceptedKind regular parts q = tt
  check_kind-AcceptedKind symlink parts q = absurd (ground arith)
  check_kind-AcceptedKind (hardlink linkname) parts q =
      is_traversal_attempt-Accepted d ds linkname full h parts (ground arith)
  check_kind-AcceptedKind device parts q = absurd (ground arith)
  check_kind-AcceptedKind fifo parts q = tt

  -- In an archive that passes `_safetar_check` no member is a symbolic link, a character device or a block
  -- device, and the path of each member, and that of the target of each hard link, is below the working
  -- directory, against which the code checks, or has the path of this directory as a prefix of its text:
  -- it is in a directory beside it whose name begins with the name of the working directory.
  pub safetar_check-AcceptedMember :
      (ms : List Member)
      → All AreMemberParts ms
      → safetar_check (d ∷ ds) ms ≡ none
      → All (AcceptedMember (d ∷ ds)) ms
  unfolding safetar_check
  safetar_check-AcceptedMember [] parts q = tt
  safetar_check-AcceptedMember (m ∷ ms) parts q =
      let inside = is_traversal_attempt-Accepted d ds m.name full h parts.0.0 (ground arith) in
      let kind = check_kind-AcceptedKind m.kind parts.0.1 (ground arith) in
      ((inside, kind), safetar_check-AcceptedMember ms parts.1 (ground arith))

drop_last-append : (ds : List Part) (d : Part) → drop_last (ds ++ (d ∷ [])) ≡ ds
drop_last-append [] d = refl
drop_last-append (p ∷ []) d = refl
drop_last-append (p ∷ q ∷ ps) d = ap (λ (l : List Part). p ∷ l) (drop_last-append (q ∷ ps) d)

append-append : (ds : List Part) (a b : Part) → (ds ++ (a ∷ [])) ++ (b ∷ []) ≡ ds ++ (a ∷ b ∷ [])
append-append [] a b = refl
append-append (p ∷ ps) a b = ap (λ (l : List Part). p ∷ l) (append-append ps a b)

starts_with-append : (p : Part) (r s : List ℕ) → starts_with (p ++ r) (p ++ s) ≡ starts_with r s
starts_with-append [] r s = refl
starts_with-append (c ∷ p) r s = ground (arith, starts_with-append p r s, ==_iff c c)

starts_with-longer : (d x : Part) (r : List ℕ) → starts_with ((d ++ x) ++ r) (d ++ []) ≡ true
starts_with-longer [] x r = refl
starts_with-longer (c ∷ d) x r = ground (arith, starts_with-longer d x r, ==_iff c c)

starts_with-beside :
    (ds : List Part) (d x f : Part)
    → starts_with (render_parts (ds ++ ((d ++ x) ∷ f ∷ []))) (render_parts (ds ++ (d ∷ []))) ≡ true
starts_with-beside [] d x f = starts_with-longer d x (render_parts (f ∷ []))
starts_with-beside (p ∷ ps) d x f =
    starts_with-append p (render_parts (ps ++ ((d ++ x) ∷ f ∷ []))) (render_parts (ps ++ (d ∷ [])))
    ∙ starts_with-beside ps d x f

render-append :
    (ds : List Part) (d : Part) (r : List Part)
    → render (ds ++ (d ∷ r)) ≡ render_parts (ds ++ (d ∷ r))
render-append [] d r = refl
render-append (p ∷ ps) d r = refl

abbrev pub is_ordinary : Part → Bool
is_ordinary p = not (is_empty p) && not (is_dot p) && not (is_dotdot p)

abbrev pub dotdot : Part
dotdot = dot ∷ dot ∷ []

abbrev pub beside : Part → Part → MemberName
beside sibling f = record { is_absolute = false; parts = dotdot ∷ sibling ∷ f ∷ [] }

resolve-beside :
    (ds : List Part) (d sibling f : Part)
    → is_ordinary sibling ≡ true
    → is_ordinary f ≡ true
    → abspath (ds ++ (d ∷ [])) (beside sibling f) ≡ ds ++ (sibling ∷ f ∷ [])
unfolding abspath
resolve-beside ds d sibling f h h' =
    let s1 : (is_empty sibling || is_dot sibling) ≡ false = ground arith in
    let s2 : is_dotdot sibling ≡ false = ground arith in
    let f1 : (is_empty f || is_dot f) ≡ false = ground arith in
    let f2 : is_dotdot f ≡ false = ground arith in
    rw (s1, s2, f1, f2, drop_last-append ds d) (append-append ds sibling f)

-- A regular member `../<name of the working directory><more>/<file>` passes `_safetar_check`, which checks
-- against the working directory, though its path from there is in a directory beside the working
-- directory. Condition: the two names are not empty, `.` or `..`.
pub safetar_check-beside :
    (ds : List Part) (d x f : Part)
    → is_ordinary (d ++ x) ≡ true
    → is_ordinary f ≡ true
    → (safetar_check (ds ++ (d ∷ [])) (record { name = beside (d ++ x) f; kind = regular } ∷ [])
        ≡ none)
      × (abspath (ds ++ (d ∷ [])) (beside (d ++ x) f) ≡ ds ++ ((d ++ x) ∷ f ∷ []))
unfolding safetar_check is_traversal_attempt check_kind
safetar_check-beside ds d x f h h' =
    let path = resolve-beside ds d (d ++ x) f h h' in
    let passes : starts_with (render (abspath (ds ++ (d ∷ [])) (beside (d ++ x) f)))
          (render (ds ++ (d ∷ [])))
        ≡ true =
      rw (path, render-append ds (d ++ x) (f ∷ []), render-append ds d [])
        (starts_with-beside ds d x f) in
    (rw passes refl, path)
