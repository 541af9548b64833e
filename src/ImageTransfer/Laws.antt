-- ===== src/ImageTransfer/Laws.antt =====
-- What backend/image_transfer relies on of a registry, and a registry in memory that has it.
use substra_backend.Prelude.{
  ℕ, Bool, true, ◌&&◌, ◌==◌, ◌≡◌, refl, ◌⊎◌, Option, none, some, List, if◌then◌else◌, All, arith,
  ==_refl,
}
use substra_backend.ImageTransfer.Names.{Text, text_eq, text_eq-eq, text_eq_refl}
use substra_backend.ImageTransfer.{
  http_error, Outcome, failed, done, ManifestContent, Registry, Blob, get_list_of_blobs,
}

module _ (registry : Registry) where
  -- The blob stands in the repository, with a content that has its digest.
  pub record HasBlob (s : registry.State) (repository : Text) (digest : ℕ) : Type 0 where
    pub content : ℕ
    pub pulled : registry.pull_blob s repository digest ≡ done content
    pub has_digest : registry.digest_of content ≡ digest

  -- A registry addresses blobs by their content; a blob that was pushed can be pulled, a manifest whose
  -- blobs are there can be set and got, and what stood there stays.
  pub record IsLawful : Type 0 where
    pub pull_digest :
        (s : registry.State) (r : Text) (d c : ℕ)
        → registry.pull_blob s r d ≡ done c
        → registry.digest_of c ≡ d
    pub push_returns :
        (s : registry.State) (r : Text) (c d : ℕ)
        → registry.digest_of c ≡ d
        → ((registry.push_blob s r c d).1 ≡ done tt)
          × (registry.pull_blob (registry.push_blob s r c d).0 r d ≡ done c)
    pub push_keeps :
        (s : registry.State) (r : Text) (c d : ℕ) (q : Text) (e : ℕ)
        → registry.digest_of c ≡ d
        → HasBlob s q e
        → HasBlob (registry.push_blob s r c d).0 q e
    pub push_manifests :
        (s : registry.State) (r : Text) (c d : ℕ) (q t : Text)
        → registry.get_manifest (registry.push_blob s r c d).0 q t none
          ≡ registry.get_manifest s q t none
    pub set_returns :
        (s : registry.State) (r t : Text) (m : ManifestContent) (bs : List Blob)
        → get_list_of_blobs r m ≡ done bs
        → All (λ b. HasBlob s r b.digest) bs
        → ((registry.set_manifest s r t m).1 ≡ done tt)
          × (registry.get_manifest (registry.set_manifest s r t m).0 r t none ≡ done m)
    pub set_keeps :
        (s : registry.State) (r t : Text) (m : ManifestContent) (q : Text) (e : ℕ)
        → HasBlob s q e
        → HasBlob (registry.set_manifest s r t m).0 q e
    pub set_others :
        (s : registry.State) (r t : Text) (m : ManifestContent) (q u : Text)
        → ((q ≡ r) × (u ≡ t))
          ⊎ (registry.get_manifest (registry.set_manifest s r t m).0 q u none
              ≡ registry.get_manifest s q u none)

-- A registry in memory, whose blobs are their own digests.
pub record Memory : Type 0 where
  pub stored_blobs : Text → ℕ → Bool
  pub stored_manifests : Text → Text → Option ManifestContent

abbrev pub or_404 {ℓ} : {A : Type ℓ} → Option A → Outcome A
or_404 none = failed (http_error 404)
or_404 (some a) = done a

abbrev pub push_memory : Memory → Text → ℕ → ℕ → Memory × Outcome {0} Unit
push_memory s r c d =
    if c == d
    then (
      record {
        stored_blobs = λ q e. if text_eq q r && (e == d) then true else s.stored_blobs q e;
        stored_manifests = s.stored_manifests;
      },
      done tt,
    )
    else (s, failed (http_error 400))

abbrev pub memory : Registry
memory = record {
  State = Memory;
  digest_of = λ c. c;
  pull_blob = λ s r d. if s.stored_blobs r d then done d else failed (http_error 404);
  get_manifest = λ s r t platform. or_404 (s.stored_manifests r t);
  push_blob = push_memory;
  mount_blob = λ s r from d.
      if s.stored_blobs from d then push_memory s r d d else (s, failed (http_error 404));
  set_manifest = λ s r t m. (
    record {
      stored_blobs = s.stored_blobs;
      stored_manifests =
          λ q u. if text_eq q r && text_eq u t then some m else s.stored_manifests q u;
    },
    done tt,
  );
}

pub memory-IsLawful : IsLawful memory
memory-IsLawful = record {
  pull_digest = λ s r d c h. ground arith;
  push_returns = λ s r c d h. ground (arith, ==_refl d, text_eq_refl r);
  push_keeps = λ s r c d q e h b. record {
    content = b.content;
    pulled = ground arith;
    has_digest = b.has_digest;
  };
  push_manifests = λ s r c d q t. ground arith;
  set_returns = λ s r t m bs h p. (refl, rw (text_eq_refl r, text_eq_refl t) refl);
  set_keeps =
      λ s r t m q e b. record { content = b.content; pulled = b.pulled; has_digest = b.has_digest };
  set_others = λ s r t m q u. ground (arith, text_eq-eq q r, text_eq-eq u t);
}
