-- ===== src/Access/Examples.antt =====
-- The theorems about permissions and downloads on a network of three organizations.
use substra_backend.Prelude.{
  ℕ, Option, true, ap, ◌==◌, if◌then◌else◌, false, ◌&&◌, not, ◌≡◌, refl, none, some, [], ◌∷◌,
}
use substra_backend.Access.{
  organization_user, classic_user, get, Request, Asset, Serving, gives, forbidden, remote_content,
  get_channel_name, find, check_access, get_asset, get_file_response, download_file, authenticate,
}
use substra_backend.Access.Permissions.{
  Permission, allows, GivesRight, permissions_intersect, permissions_intersect-allows,
}
use substra_backend.Access.Models.{
  Model, Backend, find_model, streamed_from, check_model_access, model_file,
}
use substra_backend.Access.Exporting.{exports}
use substra_backend.Access.Proxied.{model_file-exported}
use substra_backend.Access.Download.{or_none, sent_in, sends_file, download_file-sends}

abbrev of_one_and_two : Permission
of_one_and_two = record { public = false; authorized_ids = some (1 ∷ 2 ∷ []) }

abbrev of_two_and_three : Permission
of_two_and_three = record { public = false; authorized_ids = some (2 ∷ 3 ∷ []) }

permissions_intersect-allows_example :
    GivesRight
      (permissions_intersect of_one_and_two of_two_and_three)
      2
      (allows of_one_and_two 2 && allows of_two_and_three 2)
permissions_intersect-allows_example =
    permissions_intersect-allows of_one_and_two of_two_and_three 2 refl refl

-- A model of organization 2, which lets organization 3 use it, as organization 1 serves it.
abbrev asset : Asset
asset = record {
  key = 7;
  channel = 4;
  owner = 2;
  process_public = false;
  process_authorized_ids = 2 ∷ 3 ∷ [];
  address = some 9;
}

abbrev serving : Serving
serving = record {
  isolated = false;
  my_organization = 1;
  assets = asset ∷ [];
  local_file = λ key. none;
  streamed_get = λ channel owner url. some url;
}

abbrev request : Request
request = record {
  user = organization_user 3;
  method = get;
  channel_header = some 4;
  uuid = some 7;
  proxied = false;
}

download_file-sends_example :
    sends_file (download_file serving request)
    ≡ (not false && sent_in serving (some 7) (or_none (get_channel_name request)) (some 3))
download_file-sends_example = download_file-sends serving request

-- It is sent to organization 3, and not to the users of organization 1.
sent : download_file serving request ≡ gives (remote_content 9)
unfolding download_file get_channel_name get_asset find check_access get_file_response
sent = refl

not_sent :
    download_file serving (record {
      user = classic_user (some 4);
      method = get;
      channel_header = none;
      uuid = some 7;
      proxied = false;
    })
    ≡ gives forbidden
unfolding download_file get_channel_name get_asset find check_access get_file_response
not_sent = refl

-- Organization 2, which has the model, and organization 1, whose user asks for it.
abbrev model : Model
model = record { row = asset; download_public = false; download_authorized_ids = 1 ∷ [] }

abbrev owner : Backend
owner = record {
  serving = record {
    isolated = false;
    my_organization = 2;
    assets = [];
    local_file = λ key. some 50;
    streamed_get = λ channel owner url. none;
  };
  models = model ∷ [];
  model_export_enabled = λ channel. some true;
  check_password_of = λ name. some (λ password. password == 8);
}

abbrev owner_only : ℕ → Option Backend
owner_only name = if name == 2 then some owner else none

abbrev asker : Backend
asker = record {
  serving = record {
    isolated = false;
    my_organization = 1;
    assets = [];
    local_file = λ key. none;
    streamed_get = streamed_from 1 owner_only (λ name. 8) (λ url. some 7);
  };
  models = model ∷ [];
  model_export_enabled = λ channel. some true;
  check_password_of = λ name. none;
}

abbrev user_request : Request
user_request = record {
  user = classic_user (some 4);
  method = get;
  channel_header = none;
  uuid = some 7;
  proxied = false;
}

-- The file has come from organization 2.
exported : model_file asker user_request ≡ gives (remote_content 50)
unfolding model_file check_model_access get_channel_name get_file_response authenticate
exported = refl

-- Organization 2 itself has it refused to organization 1 when that processes it.
not_processed :
    model_file owner (record {
      user = organization_user 1;
      method = get;
      channel_header = some 4;
      uuid = some 7;
      proxied = false;
    })
    ≡ gives forbidden
unfolding model_file check_model_access get_channel_name
not_processed = refl

model_file-exported_example :
    (exports asker 4 1 (some model) ≡ true)
    × (exports owner 4 1 (find_model 4 7 (model ∷ [])) ≡ true)
model_file-exported_example =
    model_file-exported asker owner_only (λ name. 8) (λ url. some 7) user_request 7 4 9 model owner
      refl refl refl refl refl refl refl refl (ap sends_file exported)
