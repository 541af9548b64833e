-- ===== src/Access/Download.antt =====
-- Who gets a file from `download_file` of backend/api/views/utils.py.
use substra_backend.Prelude.{
  ℕ, Bool, true, false, ◌&&◌, not, ◌==◌, ◌≡◌, refl, ap, ◌∙◌, Option, none, some, if◌then◌else◌,
  is_some, arith,
}
use substra_backend.Access.{
  User, anonymous, organization_user, classic_user, Request, Asset, asset_permission, Reply, raises,
  gives, ◌then_reply◌, get_channel_name, authorizes, check_access, find, check_found, get_asset,
  Serving, Response, gone, local_content, remote_content, or_forbidden, get_file_response, file_of,
  get_key, download_file,
}

-- The organization that a user acts for.
abbrev pub acts_for : ℕ → User → Option ℕ
acts_for my_organization anonymous = none
acts_for my_organization (organization_user name) = some name
acts_for my_organization (classic_user _) = some my_organization

abbrev pub may_process : Asset → Option ℕ → Bool
may_process asset none = false
may_process asset (some organization) = authorizes asset organization

abbrev pub sends_file : Reply Response → Bool
sends_file (gives (local_content _)) = true
sends_file (gives (remote_content _)) = true
sends_file _ = false

abbrev pub or_none {ℓ} : {A : Type ℓ} → Reply A → Option A
or_none (raises e) = none
or_none (gives a) = some a

module _ (s : Serving) where
  -- The file of the asset can be had: from this organization, or from its owner.
  abbrev pub available : ℕ → ℕ → Asset → Bool
  available key channel asset = elim asset.address [
    | none ↦ false
    | some url ↦
        if s.my_organization == asset.owner
        then is_some (s.local_file key)
        else is_some (s.streamed_get channel asset.owner url)
  ]

  abbrev pub asset_sent : ℕ → ℕ → Option ℕ → Option Asset → Bool
  asset_sent key channel organization none = false
  asset_sent key channel organization (some asset) =
      may_process asset organization && available key channel asset

  abbrev pub sent_in : Option ℕ → Option ℕ → Option ℕ → Bool
  sent_in (some key) (some channel) organization =
      asset_sent key channel organization (find channel key s.assets)
  sent_in _ _ organization = false

  abbrev granted : Bool → Asset → Reply Asset
  granted true asset = gives asset
  granted false asset = raises asset_permission

  check_found-granted :
      (user : User) (asset : Asset)
      → check_found s.my_organization user (some asset)
        ≡ granted (may_process asset (acts_for s.my_organization user)) asset
  unfolding check_access
  check_found-granted anonymous asset = refl
  check_found-granted (organization_user name) asset = ground arith
  check_found-granted (classic_user c) asset = ground arith

  pub file_of-available :
      (key channel : ℕ) (asset : Asset)
      → sends_file (file_of s key channel asset) ≡ available key channel asset
  unfolding get_file_response
  file_of-available key channel asset = ground arith

  check_found-sent :
      (user : User) (key channel : ℕ) (found : Option Asset)
      → sends_file (or_forbidden (check_found s.my_organization user found) (file_of s key channel))
        ≡ asset_sent key channel (acts_for s.my_organization user) found
  check_found-sent user key channel none = refl
  check_found-sent user key channel (some asset) =
      ap (λ r. sends_file (or_forbidden r (file_of s key channel))) (check_found-granted user asset)
      ∙ go (may_process asset (acts_for s.my_organization user))
    where
      go :
          (may : Bool)
          → sends_file (or_forbidden (granted may asset) (file_of s key channel))
            ≡ (may && available key channel asset)
      go true = file_of-available key channel asset
      go false = refl

  -- `download_file` sends a file exactly where all of this holds: the organization is not isolated, the
  -- URL has a UUID, the request has a channel, the first asset with this key in this channel is public or
  -- lists the organization that the user acts for (its own for the users of this organization, none for
  -- an anonymous one), it has an address, and its file can be had.
  pub download_file-sends :
      (request : Request)
      → sends_file (download_file s request) ≡ (
          not s.isolated
          && sent_in request.uuid
              (or_none (get_channel_name request))
              (acts_for s.my_organization request.user))
  unfolding download_file get_asset
  download_file-sends request = go s.isolated request.uuid (get_channel_name request)
    where
      go :
          (isolated : Bool) (uuid : Option ℕ) (channel : Reply ℕ)
          → sends_file (
              if isolated
              then gives gone
              else (get_key s uuid then_reply (λ k. channel then_reply (λ c.
                  or_forbidden
                    (get_asset s.my_organization request.user k c s.assets)
                    (file_of s k c)))))
            ≡ (not isolated
                && sent_in uuid (or_none channel) (acts_for s.my_organization request.user))
      go true uuid channel = refl
      go false none channel = refl
      go false (some k) (raises e) = refl
      go false (some k) (gives c) = check_found-sent request.user k c (find c k s.assets)
