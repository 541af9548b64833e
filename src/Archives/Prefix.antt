-- ===== src/Archives/Prefix.antt =====
-- What the test by prefix of backend/substrapp/utils/tarsafe.py and safezip.py means.
use substra_backend.Prelude.{
  ℕ, Bool, true, false, ◌||◌, ◌==◌, ==_iff, ◌≡◌, refl, ◌⊎◌, inl, inr, List, [], ◌∷◌, ◌++◌, All,
  if◌then◌else◌, arith, any,
}
use substra_backend.Archives.{
  Part, slash, MemberName, is_empty, is_dot, is_dotdot, drop_last, resolve, abspath, render,
  render_parts, starts_with, is_traversal_attempt,
}

abbrev pub has_slash : Part → Bool
has_slash p = any (λ c. c == slash) p

-- No part has a separator in it.
abbrev pub AreParts : List Part → Type 0
AreParts ps = All (λ p. has_slash p ≡ false) ps

-- A text that is empty or begins with a separator.
abbrev pub is_tail : List ℕ → Bool
is_tail [] = true
is_tail (c ∷ cs) = c == slash

pub render_parts-is_tail : (ps : List Part) → is_tail (render_parts ps) ≡ true
render_parts-is_tail [] = refl
render_parts-is_tail (p ∷ ps) = refl

-- The first parts of two paths, where the text of one is a prefix of that of the other.
pub same_or_longer :
    (c d : Part) (r s : List ℕ)
    → has_slash c ≡ false
    → has_slash d ≡ false
    → is_tail r ≡ true
    → is_tail s ≡ true
    → starts_with (c ++ r) (d ++ s) ≡ true
    → ((c ≡ d) × (starts_with r s ≡ true)) ⊎ ((s ≡ []) × ((x : Part) × (c ≡ d ++ x)))
same_or_longer c [] r [] hc hd hr hs h = inr (refl, (c, refl))
same_or_longer [] [] r (y ∷ s) hc hd hr hs h = inl (refl, h)
same_or_longer (x ∷ c) [] r (y ∷ s) hc hd hr hs h = absurd (ground (arith, ==_iff x y))
same_or_longer [] (y ∷ d) [] s hc hd hr hs h = absurd (ground arith)
same_or_longer [] (y ∷ d) (x ∷ r) s hc hd hr hs h = absurd (ground (arith, ==_iff x y))
same_or_longer (x ∷ c) (y ∷ d) r s hc hd hr hs h =
    elim (same_or_longer c d r s (ground arith) (ground arith) hr hs (ground arith)) [
      | inl (e, rest) ↦ inl (ground (arith, ==_iff x y), rest)
      | inr (e, (z, longer)) ↦ inr (e, (z, ground (arith, ==_iff x y)))
    ]

-- Below the directory, or beside it with a name that its own name begins.
pub data Accepted : List Part → List Part → Type 0 where
  below : {ps : List Part} → Accepted [] ps
  longer : {d : Part} (x : Part) {ps : List Part} → Accepted (d ∷ []) ((d ++ x) ∷ ps)
  deeper : {d : Part} {ds ps : List Part} → Accepted ds ps → Accepted (d ∷ ds) (d ∷ ps)

render_parts-none : (ds : List Part) → render_parts ds ≡ [] → ds ≡ []
render_parts-none [] e = refl
render_parts-none (d ∷ ds) e = absurd (ground arith)

pub starts_with-Accepted :
    (ds ps : List Part)
    → AreParts ds
    → AreParts ps
    → starts_with (render_parts ps) (render_parts ds) ≡ true
    → Accepted ds ps
starts_with-Accepted [] ps hd hp h = below
starts_with-Accepted (d ∷ ds) [] hd hp h = absurd (ground arith)
starts_with-Accepted (d ∷ ds) (p ∷ ps) hd hp h =
    elim (same_or_longer p d (render_parts ps) (render_parts ds) hp.0 hd.0 (render_parts-is_tail ps)
      (render_parts-is_tail ds) (ground arith)) [
        | inl (e, rest) ↦ rw e (deeper (starts_with-Accepted ds ps hd.1 hp.1 rest))
        | inr (e, (x, wider)) ↦ rw (render_parts-none ds e, wider) (longer x)
      ]

AreParts-append :
    (ps : List Part) (p : Part) → AreParts ps → has_slash p ≡ false → AreParts (ps ++ (p ∷ []))
AreParts-append [] p h h' = (h', tt)
AreParts-append (q ∷ ps) p h h' = (h.0, AreParts-append ps p h.1 h')

AreParts-drop_last : (ps : List Part) → AreParts ps → AreParts (drop_last ps)
AreParts-drop_last [] h = tt
AreParts-drop_last (p ∷ []) h = tt
AreParts-drop_last (p ∷ q ∷ ps) h = (h.0, AreParts-drop_last (q ∷ ps) h.1)

AreParts-if :
    (b : Bool) (ps qs : List Part) → AreParts ps → AreParts qs → AreParts (if b then ps else qs)
AreParts-if true ps qs h h' = h
AreParts-if false ps qs h h' = h'

AreParts-resolve : (ps base : List Part) → AreParts base → AreParts ps → AreParts (resolve base ps)
AreParts-resolve [] base h h' = h
AreParts-resolve (p ∷ ps) base h h' =
    AreParts-resolve ps _
      (AreParts-if (is_empty p || is_dot p) base
        (if is_dotdot p then drop_last base else base ++ (p ∷ [])) h
        (AreParts-if (is_dotdot p) (drop_last base) (base ++ (p ∷ [])) (AreParts-drop_last base h)
          (AreParts-append base p h h'.0)))
      h'.1

-- A name that is no traversal attempt leads to a path that is accepted.
pub is_traversal_attempt-Accepted :
    (d : Part) (ds : List Part) (name : MemberName)
    → is_empty d ≡ false
    → AreParts (d ∷ ds)
    → AreParts name.parts
    → is_traversal_attempt (d ∷ ds) name ≡ false
    → Accepted (d ∷ ds) (abspath (d ∷ ds) name)
unfolding is_traversal_attempt abspath
is_traversal_attempt-Accepted d ds name full hd hn h =
    let base : List Part = if name.is_absolute then [] else d ∷ ds in
    let parts : AreParts (resolve base name.parts) =
      AreParts-resolve name.parts base (AreParts-if name.is_absolute [] (d ∷ ds) tt hd) hn in
    step (resolve base name.parts) parts (ground arith)
  where
    step :
        (ps : List Part)
        → AreParts ps
        → starts_with (render ps) (render_parts (d ∷ ds)) ≡ true
        → Accepted (d ∷ ds) ps
    step [] hp q = absurd (ground arith)
    step (p ∷ ps) hp q = starts_with-Accepted (d ∷ ds) (p ∷ ps) hd hp q
