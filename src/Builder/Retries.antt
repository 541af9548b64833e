-- ===== src/Builder/Retries.antt =====
-- How often `build_image` of backend/builder/tasks/tasks_build_image.py builds, and how it ends.
use substra_backend.Prelude.{
  ℕ, Bool, true, false, zero, suc, leb, ◌+◌, ◌≤◌, ◌<◌, ◌≡◌, refl, sym, subst, ap, ◌∙◌, Option, none,
  some, List, [], ◌∷◌, length, if◌then◌else◌, arith, Bool-cases, inl, inr,
}
use substra_backend.Failures.{
  TaskException, execution_error, build_error, build_retry_error, build_canceled_error,
  invalid_context_error, celery_retry_error, celery_no_retry_error, soft_time_limit_exceeded,
  pod_timeout_error, other_exception,
}
use substra_backend.Builder.{
  Turns, Ending, finished, raised, out_of_fuel, after_build, build_from, build_image,
}

module _ (turns : Turns) (max_retries : ℕ) where
  abbrev pub is_end : Ending → Bool
  is_end out_of_fuel = false
  is_end _ = true

  -- The number of builds that the loop allows itself.
  abbrev pub most_builds : ℕ
  most_builds = if leb max_retries 1 then 1 else max_retries

  build_from-ends :
      (fuel attempt : ℕ)
      → attempt < most_builds
      → most_builds ≤ fuel + attempt
      → is_end (build_from turns max_retries fuel attempt).1 ≡ true
  unfolding build_from
  build_from-ends zero attempt below enough = ground arith
  build_from-ends (suc fuel) attempt below enough =
      ground (arith, build_from-ends fuel (suc attempt))

  build_from-bound :
      (fuel attempt : ℕ)
      → attempt < most_builds
      → length (build_from turns max_retries fuel attempt).0 + attempt ≤ most_builds
  unfolding build_from
  build_from-bound zero attempt h = ground arith
  build_from-bound (suc fuel) attempt h = ground (arith, build_from-bound fuel (suc attempt))

  -- The loop of `build_image` ends, and it has then built at most max_retries times, or once where
  -- max_retries is 0, whatever the builds and the checks answer.
  pub build_image-bound :
      (is_end (build_image turns max_retries).1 ≡ true)
      × (length (build_image turns max_retries).0 ≤ most_builds)
  unfolding build_image
  build_image-bound = (
    build_from-ends (suc max_retries) zero (ground arith) (ground arith),
    ground (arith, build_from-bound (suc max_retries) zero (ground arith)),
  )

  -- The builds, in order, of a run that succeeds: each one but the last raised a BuildRetryError, and the
  -- last one raised nothing.
  abbrev pub Succeeded : List ℕ → Type 0
  Succeeded [] = ⊥
  Succeeded (n ∷ []) = turns.build n ≡ none
  Succeeded (n ∷ m ∷ rest) =
      ((logs : ℕ) × (turns.build n ≡ some (build_retry_error logs))) × Succeeded (m ∷ rest)

  Succeeded-cons :
      (n logs : ℕ) (builds : List ℕ)
      → turns.build n ≡ some (build_retry_error logs)
      → Succeeded builds
      → Succeeded (n ∷ builds)
  Succeeded-cons n logs [] e h = absurd h
  Succeeded-cons n logs (m ∷ rest) e h = ((logs, e), h)

  after_build-Succeeded :
      (attempt : ℕ) (o : Option TaskException) (rest : List ℕ × Ending)
      → turns.build attempt ≡ o
      → (after_build turns max_retries attempt o rest).1 ≡ finished
      → (leb max_retries (suc attempt) ≡ false → rest.1 ≡ finished → Succeeded rest.0)
      → Succeeded (after_build turns max_retries attempt o rest).0
  after_build-Succeeded attempt none rest e h later = e
  after_build-Succeeded attempt (some (build_retry_error logs)) rest e h later =
      elim (Bool-cases (leb max_retries (suc attempt))) [
        | inl gave_up ↦ absurd (raised_not_finished (rw gave_up at h))
        | inr goes_on ↦
            rw goes_on (Succeeded-cons attempt logs rest.0 e (later goes_on (rw goes_on at h)))
      ]
    where
      raised_not_finished : ¬ (raised celery_no_retry_error ≡ finished)
      raised_not_finished x = cc
  after_build-Succeeded attempt (some (build_error logs)) rest e h later = cc
  after_build-Succeeded attempt (some (execution_error logs)) rest e h later = cc
  after_build-Succeeded attempt (some build_canceled_error) rest e h later = cc
  after_build-Succeeded attempt (some invalid_context_error) rest e h later = cc
  after_build-Succeeded attempt (some celery_retry_error) rest e h later = cc
  after_build-Succeeded attempt (some celery_no_retry_error) rest e h later = cc
  after_build-Succeeded attempt (some soft_time_limit_exceeded) rest e h later = cc
  after_build-Succeeded attempt (some pod_timeout_error) rest e h later = cc
  after_build-Succeeded attempt (some (other_exception x)) rest e h later = cc

  build_from-Succeeded :
      (fuel attempt : ℕ)
      → attempt < most_builds
      → (build_from turns max_retries fuel attempt).1 ≡ finished
      → Succeeded (build_from turns max_retries fuel attempt).0
  unfolding build_from
  build_from-Succeeded zero attempt below h = cc
  build_from-Succeeded (suc fuel) attempt below h =
      let rest = build_from turns max_retries fuel (suc attempt) in
      let passes : leb attempt max_retries ≡ true = ground arith in
      elim (Bool-cases (turns.check_function_is_runnable attempt)) [
        | inl runnable ↦
            let step : build_from turns max_retries (suc fuel) attempt
                ≡ after_build turns max_retries attempt (turns.build attempt) rest =
              rw (passes, runnable) refl in
            subst (λ p. Succeeded p.0) (sym step)
              (after_build-Succeeded attempt (turns.build attempt) rest refl
                (ap (λ p. p.1) (sym step) ∙ h)
                (λ goes_on ended. build_from-Succeeded fuel (suc attempt) (ground arith) ended))
        | inr canceled ↦
            let step : build_from turns max_retries (suc fuel) attempt
                ≡ ([], raised build_canceled_error) =
              rw (passes, canceled) refl in
            absurd (canceled_not_finished (ap (λ p. p.1) (sym step) ∙ h))
      ]
    where
      canceled_not_finished : ¬ (raised build_canceled_error ≡ finished)
      canceled_not_finished x = cc

  -- Where `build_image` finishes, its last build raised nothing, and each build before it raised a
  -- BuildRetryError.
  pub build_image-Succeeded :
      (build_image turns max_retries).1 ≡ finished → Succeeded (build_image turns max_retries).0
  unfolding build_image
  build_image-Succeeded h = build_from-Succeeded (suc max_retries) zero (ground arith) h
