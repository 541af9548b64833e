-- ===== src/Builder/Pods.antt =====
-- `build_image_if_missing` and `_build_container_image` of backend/builder/image_builder/image_builder.py.
use substra_backend.Prelude.{
  ℕ, Bool, true, false, ◌&&◌, not, ◌≡◌, Option, none, some, List, [], ◌∷◌, ◌++◌, if◌then◌else◌,
  is_some, any, arith,
}
use substra_backend.Failures.{TaskException, build_error, build_retry_error, pod_timeout_error}

-- What the build of an image meets: the Dockerfile, whether the pod of the image exists, whether its
-- creation fails, what watch_pod raises, whether the image exists then (false where the check raises),
-- and the logs of the pod, with whether they have "ConnectionResetError" in them.
pub record PodRun : Type 0 where
  pub dockerfile_exists : Bool
  pub pod_exists : Bool
  pub creation_fails : Bool
  pub watch_pod : Option TaskException
  pub image_exists : Bool
  pub logs : ℕ
  pub connection_reset : Bool

pub data PodEffect : Type 0 where
  creates_pod : PodEffect
  watches_pod : PodEffect
  deletes_pod : PodEffect

abbrev pub no_logs : ℕ
no_logs = 0

module _ (r : PodRun) where
  abbrev pub create_pod : Bool
  create_pod = not r.pod_exists

  -- _delete_kaniko_pod, for a pod that this call created
  abbrev pub delete_kaniko_pod : List PodEffect
  delete_kaniko_pod = if create_pod then deletes_pod ∷ [] else []

  abbrev pub pod_logs : ℕ
  pod_logs = if create_pod then r.logs else no_logs

  -- The exception for what watch_pod raised.
  abbrev pub build_failure : TaskException → TaskException
  build_failure pod_timeout_error = build_retry_error pod_logs
  build_failure e =
      if create_pod && r.connection_reset then build_retry_error pod_logs else build_error pod_logs

  abbrev pub after_watch : Option TaskException → List PodEffect × Option TaskException
  after_watch none = (delete_kaniko_pod, none)
  after_watch (some e) =
      if r.image_exists then ([], none) else (delete_kaniko_pod, some (build_failure e))

  abbrev pub watched : List PodEffect → List PodEffect × Option TaskException
  watched before =
      let (effects, result) = after_watch r.watch_pod in (before ++ (watches_pod ∷ effects), result)

  unfoldable pub build_container_image : List PodEffect × Option TaskException
  build_container_image =
      if not r.dockerfile_exists
      then ([], some (build_error no_logs))
      else if r.pod_exists
      then watched []
      else if r.creation_fails
      then ([], some (build_retry_error no_logs))
      else watched (creates_pod ∷ [])

  abbrev pub is_deletion : PodEffect → Bool
  is_deletion deletes_pod = true
  is_deletion _ = false

  abbrev pub is_creation : PodEffect → Bool
  is_creation creates_pod = true
  is_creation _ = false

  -- The pod is deleted exactly where this call created it, unless watch_pod raised and the image exists
  -- nevertheless: then the created pod stays.
  pub build_container_image-deletes :
      any is_deletion build_container_image.0
      ≡ (any is_creation build_container_image.0 && not (is_some r.watch_pod && r.image_exists))
  unfolding build_container_image
  build_container_image-deletes = ground arith

-- docker.container_image_exists: a timeout, or the answer. The function that cannot be had, or its
-- archive that cannot be extracted, is another exception.
abbrev pub build_if_missing :
    Option Bool → Option TaskException → PodRun → List PodEffect × Option TaskException
build_if_missing none fetch r = ([], some (build_retry_error no_logs))
build_if_missing (some true) fetch r = ([], none)
build_if_missing (some false) none r = build_container_image r
build_if_missing (some false) (some e) r = ([], some e)
