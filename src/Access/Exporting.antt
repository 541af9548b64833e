-- ===== src/Access/Exporting.antt =====
-- Who gets a model, from the backend that is asked and from the one that has it.
use substra_backend.Prelude.{
  ℕ, Bool, true, false, ◌&&◌, not, ◌≡◌, refl, ap, ◌∙◌, Option, none, some, arith, if◌then◌else◌,
}
use substra_backend.Access.{
  User, anonymous, organization_user, classic_user, Request, Asset, Reply, raises, gives,
  ◌then_reply◌, get_channel_name, authorizes, Response, gone, or_forbidden, file_of, get_key,
}
use substra_backend.Access.Download.{sends_file, or_none, available, file_of-available}
use substra_backend.Access.Models.{
  Model, authorizes_download, find_model, Backend, check_export_enabled, unless_refused,
  check_model_access, get_model, model_file,
}

abbrev pub is_on : Option Bool → Bool
is_on none = false
is_on (some enabled) = enabled

module _ (b : Backend) where
  -- The export is enabled in this channel, and the organization may download the model.
  abbrev pub exports : ℕ → ℕ → Option Model → Bool
  exports channel organization none = false
  exports channel organization (some model) =
      is_on (b.model_export_enabled channel) && authorizes_download model organization

  -- What a user may read: organizations read what they process, and everything else is an export.
  abbrev pub readable : ℕ → User → Bool → Option Model → Bool
  readable channel anonymous proxied found = false
  readable channel (organization_user name) true found = exports channel name found
  readable channel (organization_user name) false none = false
  readable channel (organization_user name) false (some model) = authorizes model.row name
  readable channel (classic_user _) proxied found = exports channel b.serving.my_organization found

  -- A model that is not found is sent to nobody; the others where the user may read them and the file can
  -- be had.
  abbrev pub model_sent : ℕ → ℕ → User → Bool → Option Model → Bool
  model_sent key channel user proxied none = false
  model_sent key channel user proxied (some model) =
      readable channel user proxied (some model) && available b.serving key channel model.row

  abbrev pub model_sent_in : Option ℕ → Option ℕ → User → Bool → Bool
  model_sent_in (some key) (some channel) user proxied =
      model_sent key channel user proxied (find_model channel key b.models)
  model_sent_in _ _ user proxied = false

  abbrev succeeds : Reply {0} Unit → Bool
  succeeds (gives _) = true
  succeeds (raises e) = false

  -- A missing channel raises another error, but sends nothing either.
  checked_sends :
      (allowed : Reply {0} Unit) (row : Asset) (rest : Asset → Reply Response)
      → sends_file (or_forbidden (allowed then_reply (λ _. gives row)) rest)
        ≡ (succeeds allowed && sends_file (rest row))
  checked_sends (gives tt) row rest = refl
  checked_sends (raises e) row rest = ground arith

  export_succeeds :
      (export : Option Bool) (may : Bool)
      → succeeds (check_export_enabled export then_reply (λ _. unless_refused may))
        ≡ (is_on export && may)
  export_succeeds none may = refl
  export_succeeds (some true) true = refl
  export_succeeds (some true) false = refl
  export_succeeds (some false) may = refl

  check_model_access-succeeds :
      (channel : ℕ) (user : User) (proxied : Bool) (model : Model)
      → succeeds (check_model_access b channel user proxied model)
        ≡ readable channel user proxied (some model)
  unfolding check_model_access
  check_model_access-succeeds channel anonymous proxied model = refl
  check_model_access-succeeds channel (organization_user name) true model =
      export_succeeds (b.model_export_enabled channel) (authorizes_download model name)
  check_model_access-succeeds channel (organization_user name) false model =
      go (authorizes model.row name)
    where
      go : (may : Bool) → succeeds (unless_refused may) ≡ may
      go true = refl
      go false = refl
  check_model_access-succeeds channel (classic_user _) proxied model =
      export_succeeds (b.model_export_enabled channel)
        (authorizes_download model b.serving.my_organization)

  get_model-sent :
      (key channel : ℕ) (user : User) (proxied : Bool) (found : Option Model)
      → sends_file
          (or_forbidden (get_model b channel user proxied found) (file_of b.serving key channel))
        ≡ model_sent key channel user proxied found
  get_model-sent key channel user proxied none = refl
  get_model-sent key channel user proxied (some model) =
      checked_sends (check_model_access b channel user proxied model) model.row
        (file_of b.serving key channel)
      ∙ ap (λ may. may && sends_file (file_of b.serving key channel model.row))
          (check_model_access-succeeds channel user proxied model)
      ∙ ap (λ sent. readable channel user proxied (some model) && sent)
          (file_of-available b.serving key channel model.row)

  pub model_file-sends :
      (request : Request)
      → sends_file (model_file b request) ≡ (
          not b.serving.isolated
          && model_sent_in request.uuid
              (or_none (get_channel_name request))
              request.user
              request.proxied)
  unfolding model_file
  model_file-sends request = go b.serving.isolated request.uuid (get_channel_name request)
    where
      go :
          (isolated : Bool) (uuid : Option ℕ) (channel : Reply ℕ)
          → sends_file (
              if isolated
              then gives gone
              else (get_key b.serving uuid then_reply (λ k. channel then_reply (λ c.
                  or_forbidden
                    (get_model b c request.user request.proxied (find_model c k b.models))
                    (file_of b.serving k c)))))
            ≡ (not isolated && model_sent_in uuid (or_none channel) request.user request.proxied)
      go true uuid channel = refl
      go false none channel = refl
      go false (some k) (raises e) = refl
      go false (some k) (gives c) =
          get_model-sent k c request.user request.proxied (find_model c k b.models)
