-- ===== src/Access.antt =====
-- Who may read and write through the API: backend/api/views/utils.py and
-- model.py, backend/libs/permissions.py and
-- backend/organization/authentication.py.
pub mod Permissions
pub mod Download
pub mod Models
pub mod Exporting
pub mod Proxied
mod Examples
use substra_backend.Prelude.{
  ℕ, String, Bool, true, false, ◌&&◌, ◌||◌, not, ◌==◌, Option, none, some, List, [], ◌∷◌, any,
  if◌then◌else◌, is_some, str_eq,
}

-- The user of a request: none, another organization (OrganizationUser, with its identifier), or a
-- user of this organization, with the channel where there is one.
pub data User : Type 0 where
  anonymous : User
  organization_user : ℕ → User
  classic_user : Option ℕ → User

pub data Method : Type 0 where
  get : Method
  head : Method
  options : Method
  post : Method
  put : Method
  patch : Method
  delete : Method

pub record Request : Type 0 where
  pub user : User
  pub method : Method
  -- the header Substra-Channel-Name, and the key in the URL, where it is a UUID
  pub channel_header : Option ℕ
  pub uuid : Option ℕ
  -- the request has the header Substra-Proxy-Asset: is_proxied_request
  pub proxied : Bool

-- A row of an asset: AssetPermissionMixin, and the address of the file.
pub record Asset : Type 0 where
  pub key : ℕ
  pub channel : ℕ
  pub owner : ℕ
  pub process_public : Bool
  pub process_authorized_ids : List ℕ
  pub address : Option ℕ

pub data ApiError : Type 0 where
  bad_request : ApiError
  does_not_exist : ApiError
  multiple_objects : ApiError
  asset_permission : ApiError
  organization_error : ApiError
  key_error : ApiError

pub data Reply {ℓ} (A : Type ℓ) : Type ℓ where
  raises : ApiError → Reply A
  gives : A → Reply A

infixl 5 ◌then_reply◌
abbrev pub ◌then_reply◌ {ℓ κ} : {A : Type ℓ} {B : Type κ} → Reply A → (A → Reply B) → Reply B
(raises e) then_reply rest = raises e
(gives a) then_reply rest = rest a

-- OrganizationBackend.authenticate: the password of each incoming organization is a parameter
unfoldable pub authenticate : (ℕ → Option (ℕ → Bool)) → Option ℕ → Option ℕ → Option User
authenticate check_password_of none password = none
authenticate check_password_of (some username) none = none
authenticate check_password_of (some username) (some password) = elim (check_password_of username) [
  | none ↦ none
  | some check ↦ if check password then some (organization_user username) else none
]

-- IsAuthorized
abbrev pub is_authorized : User → Bool
is_authorized anonymous = false
is_authorized (organization_user _) = true
is_authorized (classic_user channel) = is_some channel

abbrev pub is_safe : Method → Bool
is_safe get = true
is_safe head = true
is_safe options = true
is_safe _ = false

abbrev pub is_current_backend : ℕ → User → Bool
is_current_backend my_organization (organization_user name) = name == my_organization
is_current_backend my_organization _ = false

abbrev pub posts_or_puts : Method → Bool
posts_or_puts post = true
posts_or_puts put = true
posts_or_puts _ = false

-- IsCurrentBackendOrReadOnly
unfoldable pub has_permission : ℕ → Request → Bool
has_permission my_organization request =
    is_safe request.method
    || posts_or_puts request.method && is_current_backend my_organization request.user

unfoldable pub get_channel_name : Request → Reply ℕ
get_channel_name request = elim request.user [
  | classic_user (some channel) ↦ gives channel
  | _ ↦ elim request.channel_header [ some channel ↦ gives channel | none ↦ raises bad_request ]
]

abbrev pub authorizes : Asset → ℕ → Bool
authorizes asset organization =
    asset.process_public || any (λ id. id == organization) asset.process_authorized_ids

-- check_access
unfoldable pub check_access : ℕ → User → Asset → Reply {0} Unit
check_access my_organization anonymous asset = raises asset_permission
check_access my_organization (organization_user name) asset =
    if not (authorizes asset name) then raises asset_permission else gives tt
check_access my_organization (classic_user _) asset =
    if not (authorizes asset my_organization) then raises asset_permission else gives tt

-- objects.filter(channel=...).get(key=...)
unfoldable pub find : ℕ → ℕ → List Asset → Option Asset
find channel key [] = none
find channel key (a ∷ rest) =
    if (a.channel == channel) && (a.key == key) then some a else find channel key rest

abbrev pub check_found : ℕ → User → Option Asset → Reply Asset
check_found my_organization user none = raises does_not_exist
check_found my_organization user (some asset) =
    check_access my_organization user asset then_reply (λ _. gives asset)

unfoldable pub get_asset : ℕ → User → ℕ → ℕ → List Asset → Reply Asset
get_asset my_organization user key channel assets =
    check_found my_organization user (find channel key assets)

-- What a download meets: the settings, the rows, the local files, and what the other organizations
-- answer, which may be an exception.
pub record Serving : Type 0 where
  pub isolated : Bool
  pub my_organization : ℕ
  pub assets : List Asset
  pub local_file : ℕ → Option ℕ
  pub streamed_get : ℕ → ℕ → ℕ → Option ℕ

-- The response: 410, 403, the file of this organization, or what another organization sent.
pub data Response : Type 0 where
  gone : Response
  forbidden : Response
  local_content : ℕ → Response
  remote_content : ℕ → Response

-- except AssetPermissionError
abbrev pub or_forbidden : Reply Asset → (Asset → Reply Response) → Reply Response
or_forbidden (raises asset_permission) rest = gives forbidden
or_forbidden (raises e) rest = raises e
or_forbidden (gives asset) rest = rest asset

module _ (s : Serving) where
  unfoldable pub get_file_response : ℕ → ℕ → ℕ → ℕ → Reply Response
  get_file_response key owner channel url =
      if s.my_organization == owner
      then elim (s.local_file key) [
        | none ↦ raises does_not_exist
        | some c ↦ gives (local_content c)
      ]
      else (elim (s.streamed_get channel owner url) [
        | none ↦ raises organization_error
        | some c ↦ gives (remote_content c)
      ])

  abbrev pub file_of : ℕ → ℕ → Asset → Reply Response
  file_of key channel asset = elim asset.address [
    | none ↦ gives gone
    | some url ↦ get_file_response key asset.owner channel url
  ]

  -- get_key
  abbrev pub get_key : Option ℕ → Reply ℕ
  get_key none = raises bad_request
  get_key (some key) = gives key

  unfoldable pub download_file : Request → Reply Response
  download_file request =
      if s.isolated
      then gives gone
      else (get_key request.uuid then_reply (λ key. get_channel_name request then_reply (λ channel.
          or_forbidden (get_asset s.my_organization request.user key channel s.assets)
            (file_of key channel))))
