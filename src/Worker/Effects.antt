-- ===== src/Worker/Effects.antt =====
-- Where an effect of a sequence of statements comes from: the combinators of the compute engine.
use substra_backend.Prelude.{
  Bool, true, false, ◌||◌, ◌≡◌, ◌≢◌, refl, ◌⊎◌, inl, inr, List, [], ◌∷◌, ◌++◌, any, arith,
  if◌then◌else◌,
}
use substra_backend.Worker.{
  Failure, raised, returned, Effect, Run, Statement, ◌then_run◌, ◌next◌, catch, finally_run,
}

pub any-append :
    (p : Effect → Bool) (xs ys : List Effect) → any p (xs ++ ys) ≡ (any p xs || any p ys)
any-append p [] ys = refl
any-append p (x ∷ xs) ys = ground (arith, any-append p xs ys)

or_cases : (b c : Bool) → (b || c) ≡ true → (b ≡ true) ⊎ (c ≡ true)
or_cases true c h = inl refl
or_cases false c h = inr h

or_true : (b : Bool) → (b || true) ≡ true
or_true true = refl
or_true false = refl

module _ {ℓ} {A : Type ℓ} (p : Effect → Bool) where
  pub any-then_run {κ} :
      {B : Type κ} (m : Run A) (f : A → Run B)
      → any p (m then_run f).0 ≡ true
      → (any p m.0 ≡ true) ⊎ ((a : A) × (m.1 ≡ returned a) × (any p (f a).0 ≡ true))
  any-then_run (es, raised e) f h = inl h
  any-then_run (es, returned a) f h =
      elim (or_cases (any p es) (any p (f a).0) (rw (any-append p es (f a).0) at h)) [
        | inl before ↦ inl before
        | inr after ↦ inr (a, refl, after)
      ]

  pub any-catch :
      (m : Run A) (handler : Failure → Run A)
      → any p (catch m handler).0 ≡ true
      → (any p m.0 ≡ true) ⊎ ((e : Failure) × (any p (handler e).0 ≡ true))
  any-catch (es, returned a) handler h = inl h
  any-catch (es, raised e) handler h =
      elim (or_cases (any p es) (any p (handler e).0) (rw (any-append p es (handler e).0) at h)) [
        | inl before ↦ inl before
        | inr after ↦ inr (e, after)
      ]

  pub any-finally_run :
      (m : Run A) (last : Statement)
      → any p (finally_run m last).0 ≡ true
      → (any p m.0 ≡ true) ⊎ (any p last.0 ≡ true)
  any-finally_run (es, r) (fs, raised e) h =
      or_cases (any p es) (any p fs) (rw (any-append p es fs) at h)
  any-finally_run (es, r) (fs, returned _) h =
      or_cases (any p es) (any p fs) (rw (any-append p es fs) at h)

-- No effect of the statement passes the test.
pub record IsQuiet (p : Effect → Bool) (m : Statement) : Type 0 where
  pub none_passes : any p m.0 ≡ false

module _ {p : Effect → Bool} where
  pub next-IsQuiet : {m n : Statement} → IsQuiet p m → IsQuiet p n → IsQuiet p (m next n)
  unfolding ◌next◌
  next-IsQuiet {m = (es, raised e)} {n = n} h rest = record { none_passes = h.none_passes }
  next-IsQuiet {m = (es, returned a)} {n = n} h rest = record {
    none_passes = rw (any-append p es n.0, h.none_passes, rest.none_passes) refl;
  }

  pub if-IsQuiet :
      (b : Bool) {m n : Statement} → IsQuiet p m → IsQuiet p n → IsQuiet p (if b then m else n)
  if-IsQuiet true h h' = h
  if-IsQuiet false h h' = h'

pub any-next :
    (p : Effect → Bool) (m n : Statement)
    → any p (m next n).0 ≡ true
    → (any p m.0 ≡ true) ⊎ ((m.1 ≡ returned tt) × (any p n.0 ≡ true))
unfolding ◌next◌
any-next p m n h = elim (any-then_run p m (λ _. n) h) [
  | inl before ↦ inl before
  | inr (_, r, after) ↦ inr (r, after)
]

-- A sequence that returns: both parts returned, and it has the effects of the second one.
pub next-returned :
    (m n : Statement)
    → (m next n).1 ≡ returned tt
    → (m.1 ≡ returned tt)
      × (n.1 ≡ returned tt)
      × ((p : Effect → Bool) → any p n.0 ≡ true → any p (m next n).0 ≡ true)
unfolding ◌next◌
next-returned (es, raised e) n h = absurd (ground arith)
next-returned (es, returned _) n h =
    (refl, h, λ p later. rw (any-append p es n.0, later) (or_true (any p es)))

pub finally_run-any :
    (m last : Statement) (p : Effect → Bool)
    → (any p m.0 || any p last.0) ≡ true
    → any p (finally_run m last).0 ≡ true
finally_run-any (es, r) (fs, raised e) p h = rw (any-append p es fs) h
finally_run-any (es, r) (fs, returned _) p h = rw (any-append p es fs) h

pub finally_run-returned :
    (m last : Statement) → (finally_run m last).1 ≡ returned tt → m.1 ≡ returned tt
finally_run-returned (es, r) (fs, raised e) h = absurd (ground arith)
finally_run-returned (es, r) (fs, returned _) h = h

-- A handler that never returns.
pub catch-returned :
    (m : Statement) (handler : Failure → Statement)
    → ((e : Failure) → (handler e).1 ≢ returned tt)
    → (catch m handler).1 ≡ returned tt
    → catch m handler ≡ m
catch-returned (es, returned _) handler never h = refl
catch-returned (es, raised e) handler never h = absurd (never e h)
