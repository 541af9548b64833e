-- ===== src/ImageTransfer/Manifests.antt =====
-- What `write_manifests`, the loop over the manifests in `create_zip_from_docker_images` of
-- backend/image_transfer/encoder.py, leaves in the zip.
use substra_backend.Prelude.{
  ℕ, ◌≡◌, refl, sym, ap, ◌∙◌, subst, inl, inr, some, List, [], ◌∷◌, All, In, Bool-cases,
}
use substra_backend.ImageTransfer.Names.{text_eq, text_eq-eq, text_eq_refl, normalize_name}
use substra_backend.ImageTransfer.{done, Manifest, manifests, blobs, manifest_entry, Zip, writestr}
use substra_backend.ImageTransfer.Encoder.{Paths, get_path, write_at, write_manifests}
use substra_backend.ImageTransfer.Blobs.{and_then-done, done-injective}
use substra_backend.ImageTransfer.Paths.{path_of}

-- A manifest that stands at the path of its name.
abbrev pub Written : Zip → Manifest → Type 0
Written zip m =
    zip (manifests (normalize_name m.docker_image_name)) ≡ some (manifest_entry m.content)

-- Two manifests at one path have one content.
abbrev pub Agrees : Manifest → List Manifest → Type 0
Agrees m ms =
    All
      (λ n.
        normalize_name m.docker_image_name ≡ normalize_name n.docker_image_name
        → m.content ≡ n.content)
      ms

-- The member of a manifest is written; the others stay.
record Wrote (n : Manifest) (zip after : Zip) : Type 0 where
  own : Written after n
  same_blobs : (d : ℕ) → after (blobs d) ≡ zip (blobs d)
  keeps :
      (m : Manifest)
      → (normalize_name m.docker_image_name ≡ normalize_name n.docker_image_name
          → m.content ≡ n.content)
      → Written zip m
      → Written after m

writestr-Wrote :
    (n : Manifest) (zip : Zip)
    → Wrote n zip
        (writestr (manifests (normalize_name n.docker_image_name)) (manifest_entry n.content) zip)
writestr-Wrote n zip = record {
  own = rw (text_eq_refl (normalize_name n.docker_image_name)) refl;
  same_blobs = λ d. refl;
  keeps = λ m agree w.
      elim (Bool-cases
        (text_eq (normalize_name m.docker_image_name) (normalize_name n.docker_image_name))) [
          | inl same ↦
              rw same (ap (λ c. some (manifest_entry c)) (sym (agree (text_eq-eq _ _ same))))
          | inr differs ↦ rw differs w
        ];
}

abbrev pub RightPaths : Paths → List Manifest → Type 0
RightPaths paths ms =
    All (λ m. get_path m.docker_image_name paths ≡ some (path_of m.docker_image_name)) ms

write_at-Wrote :
    (n : Manifest) (paths : Paths) (zip after : Zip)
    → get_path n.docker_image_name paths ≡ some (path_of n.docker_image_name)
    → write_at (get_path n.docker_image_name paths) n.content zip ≡ done after
    → Wrote n zip after
write_at-Wrote n paths zip after p h =
    subst (Wrote n zip) (done-injective _ _ (rw p at h)) (writestr-Wrote n zip)

write_manifests_kept :
    (ms : List Manifest) (paths : Paths) (zip after : Zip) (m : Manifest)
    → RightPaths paths ms
    → write_manifests ms paths zip ≡ done after
    → Agrees m ms
    → Written zip m
    → Written after m
unfolding write_manifests
write_manifests_kept [] paths zip after m r h a w =
    subst (λ z. Written z m) (done-injective _ _ h) w
write_manifests_kept (n ∷ ms) paths zip after m r h a w =
    let (mid, one, rest) = and_then-done _ _ h in
    write_manifests_kept ms paths mid after m r.1 rest a.1
      ((write_at-Wrote n paths zip mid r.0 one).keeps m a.0 w)

pub write_manifests-Written :
    (ms : List Manifest) (paths : Paths) (zip after : Zip) (m : Manifest)
    → RightPaths paths ms
    → write_manifests ms paths zip ≡ done after
    → Agrees m ms
    → In m ms
    → Written after m
unfolding write_manifests
write_manifests-Written [] paths zip after m r h a i = absurd i
write_manifests-Written (n ∷ ms) paths zip after m r h a (inl here) =
    let (mid, one, rest) = and_then-done _ _ h in
    write_manifests_kept ms paths mid after m r.1 rest a.1
      (subst (Written mid) (sym here) (write_at-Wrote n paths zip mid r.0 one).own)
write_manifests-Written (n ∷ ms) paths zip after m r h a (inr later) =
    let (mid, one, rest) =
      and_then-done (write_at (get_path n.docker_image_name paths) n.content zip)
        (write_manifests ms paths) h in
    write_manifests-Written ms paths mid after m r.1 rest a.1 later

pub write_manifests_blobs :
    (ms : List Manifest) (paths : Paths) (zip after : Zip) (d : ℕ)
    → RightPaths paths ms
    → write_manifests ms paths zip ≡ done after
    → after (blobs d) ≡ zip (blobs d)
unfolding write_manifests
write_manifests_blobs [] paths zip after d r h = ap (λ z. z (blobs d)) (sym (done-injective _ _ h))
write_manifests_blobs (n ∷ ms) paths zip after d r h =
    let (mid, one, rest) = and_then-done _ _ h in
    write_manifests_blobs ms paths mid after d r.1 rest
    ∙ (write_at-Wrote n paths zip mid r.0 one).same_blobs d
