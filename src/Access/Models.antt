-- ===== src/Access/Models.antt =====
-- The export of models: ModelPermissionViewSet of backend/api/views/model.py, and the way of a request
-- from one backend to the next by `streamed_get` of backend/substrapp/clients/organization.py.
use substra_backend.Prelude.{
  ℕ, Bool, true, false, ◌&&◌, ◌||◌, ◌==◌, Option, none, some, List, [], ◌∷◌, any, if◌then◌else◌,
}
use substra_backend.Access.{
  User, anonymous, organization_user, classic_user, get, Request, Asset, asset_permission,
  does_not_exist, key_error, Reply, raises, gives, ◌then_reply◌, get_channel_name, authenticate,
  authorizes, Serving, Response, gone, local_content, remote_content, or_forbidden, file_of,
  get_key,
}

-- A row of Model: an asset with the permission "download" beside "process".
pub record Model : Type 0 where
  pub row : Asset
  pub download_public : Bool
  pub download_authorized_ids : List ℕ

-- asset.is_public("download") or organization_id in asset.get_authorized_ids("download")
abbrev pub authorizes_download : Model → ℕ → Bool
authorizes_download model organization =
    model.download_public || any (λ id. id == organization) model.download_authorized_ids

abbrev pub find_model : ℕ → ℕ → List Model → Option Model
find_model channel key [] = none
find_model channel key (m ∷ rest) =
    if (m.row.channel == channel) && (m.row.key == key) then some m else find_model channel key rest

-- A backend: what it serves, its rows, the entry model_export_enabled of each of settings.CHANNELS (the
-- channel may be missing), and the password of each incoming organization.
pub record Backend : Type 0 where
  pub serving : Serving
  pub models : List Model
  pub model_export_enabled : ℕ → Option Bool
  pub check_password_of : ℕ → Option (ℕ → Bool)

abbrev pub check_export_enabled : Option Bool → Reply {0} Unit
check_export_enabled none = raises key_error
check_export_enabled (some true) = gives tt
check_export_enabled (some false) = raises asset_permission

abbrev pub unless_refused : Bool → Reply {0} Unit
unless_refused true = gives tt
unless_refused false = raises asset_permission

module _ (b : Backend) where
  unfoldable pub check_model_access : ℕ → User → Bool → Model → Reply {0} Unit
  check_model_access channel anonymous proxied model = raises asset_permission
  check_model_access channel (organization_user name) true model =
      check_export_enabled (b.model_export_enabled channel)
      then_reply (λ _. unless_refused (authorizes_download model name))
  check_model_access channel (organization_user name) false model =
      unless_refused (authorizes model.row name)
  check_model_access channel (classic_user _) proxied model =
      check_export_enabled (b.model_export_enabled channel)
      then_reply (λ _. unless_refused (authorizes_download model b.serving.my_organization))

  abbrev pub get_model : ℕ → User → Bool → Option Model → Reply Asset
  get_model channel user proxied none = raises does_not_exist
  get_model channel user proxied (some model) =
      check_model_access channel user proxied model then_reply (λ _. gives model.row)

  -- file
  unfoldable pub model_file : Request → Reply Response
  model_file request =
      if b.serving.isolated
      then gives gone
      else (get_key b.serving request.uuid then_reply (λ key.
          get_channel_name request then_reply (λ channel.
            or_forbidden
              (get_model channel request.user request.proxied (find_model channel key b.models))
              (file_of b.serving key channel))))

-- raise_for_status: only a response with a file comes through
abbrev pub content_of : Reply Response → Option ℕ
content_of (gives (local_content c)) = some c
content_of (gives (remote_content c)) = some c
content_of _ = none

-- The request that `_http_request` makes for `streamed_get`, as its receiver knows it.
abbrev pub proxied_request : ℕ → Option ℕ → User → Request
proxied_request channel uuid user = record {
  user = user;
  method = get;
  channel_header = some channel;
  uuid = uuid;
  proxied = true;
}

-- What another backend answers to an organization that gives this secret; no user is a 401.
abbrev pub answer_to : Backend → ℕ → Option ℕ → Option User → Option ℕ
answer_to peer channel uuid none = none
answer_to peer channel uuid (some user) =
    content_of (model_file peer (proxied_request channel uuid user))

-- The request of one organization with its secret; where no backend is reached, it fails.
abbrev pub answer_of : Option Backend → ℕ → Option ℕ → ℕ → ℕ → Option ℕ
answer_of none channel uuid msp_id secret = none
answer_of (some peer) channel uuid msp_id secret =
    answer_to peer channel uuid (authenticate peer.check_password_of (some msp_id) (some secret))

-- `streamed_get`, where `peer_of` says which backend is reached under an organization's URLs, `secret_of`
-- is `_fetch_secret`, and `uuid_in` reads the key in a URL.
abbrev pub streamed_from :
    ℕ → (ℕ → Option Backend) → (ℕ → ℕ) → (ℕ → Option ℕ) → ℕ → ℕ → ℕ → Option ℕ
streamed_from msp_id peer_of secret_of uuid_in channel owner url =
    answer_of (peer_of owner) channel (uuid_in url) msp_id (secret_of owner)
