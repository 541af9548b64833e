-- ===== src/Access/Proxied.antt =====
-- A user's request for a model of another organization, through both backends.
use substra_backend.Prelude.{
  ℕ, Bool, true, false, ◌&&◌, not, ◌==◌, ◌≡◌, refl, ap, sym, ◌∙◌, Option, none, some, is_some,
  arith, ◌⊎◌, inl, inr, if◌then◌else◌,
}
use substra_backend.Access.{
  User, organization_user, classic_user, Request, Asset, Reply, raises, gives, Response, gone,
  forbidden, local_content, remote_content, get_channel_name, authenticate, Serving,
}
use substra_backend.Access.Download.{sends_file, or_none, available}
use substra_backend.Access.Models.{
  Model, find_model, Backend, model_file, content_of, proxied_request, answer_to, answer_of,
  streamed_from,
}
use substra_backend.Access.Exporting.{exports, model_sent, model_sent_in, model_file-sends}

get_channel_name-own :
    (request : Request) (channel : ℕ)
    → request.user ≡ classic_user (some channel)
    → or_none (get_channel_name request) ≡ some channel
unfolding get_channel_name
get_channel_name-own request channel own = ground (arith, own)

authenticate-organization :
    (check_password_of : ℕ → Option (ℕ → Bool)) (name password : ℕ)
    → (authenticate check_password_of (some name) (some password) ≡ none)
      ⊎ (authenticate check_password_of (some name) (some password) ≡ some (organization_user name))
unfolding authenticate
authenticate-organization check_password_of name password = go (check_password_of name)
  where
    go :
        (check : Option (ℕ → Bool))
        → (elim check [
          | none ↦ none
          | some c ↦ if c password then some (organization_user name) else none
        ]
            ≡ none)
          ⊎ (elim check [
            | none ↦ none
            | some c ↦ if c password then some (organization_user name) else none
          ]
              ≡ some (organization_user name))
    go none = inl refl
    go (some c) = decide (c password)
      where
        decide :
            (b : Bool)
            → ((if b then some (organization_user name) else none) ≡ none)
              ⊎ ((if b then some (organization_user name) else none)
                  ≡ some (organization_user name))
        decide true = inr refl
        decide false = inl refl

content_of-sends : (reply : Reply Response) → is_some (content_of reply) ≡ sends_file reply
content_of-sends (raises e) = refl
content_of-sends (gives gone) = refl
content_of-sends (gives forbidden) = refl
content_of-sends (gives (local_content c)) = refl
content_of-sends (gives (remote_content c)) = refl

and_left : (p q : Bool) → (p && q) ≡ true → p ≡ true
and_left p q h = ground arith

and_right : (p q : Bool) → (p && q) ≡ true → q ≡ true
and_right p q h = ground arith

model_sent-exports :
    (b : Backend) (key channel name : ℕ) (found : Option Model)
    → model_sent b key channel (organization_user name) true found ≡ true
    → exports b channel name found ≡ true
model_sent-exports b key channel name none h = h
model_sent-exports b key channel name (some model) h = and_left _ _ h

abbrev asked_by : ℕ → ℕ → ℕ → Request
asked_by name channel key = proxied_request channel (some key) (organization_user name)

answer_to-exports :
    (peer : Backend) (channel key name : ℕ)
    → is_some (answer_to peer channel (some key) (some (organization_user name))) ≡ true
    → exports peer channel name (find_model channel key peer.models) ≡ true
unfolding get_channel_name
answer_to-exports peer channel key name h =
    model_sent-exports peer key channel name (find_model channel key peer.models) (
      and_right (not peer.serving.isolated) _ (
        sym (model_file-sends peer (asked_by name channel key))
        ∙ sym (content_of-sends (model_file peer (asked_by name channel key)))
        ∙ h))

-- The answer comes through only where the other backend knows the secret, and exports.
streamed_from-exports :
    (peer : Backend) (channel key name password : ℕ)
    → is_some (
        answer_to peer channel
          (some key)
          (authenticate peer.check_password_of (some name) (some password)))
      ≡ true
    → exports peer channel name (find_model channel key peer.models) ≡ true
streamed_from-exports peer channel key name password h =
    elim (authenticate-organization peer.check_password_of name password) [
      | inl unknown ↦
          refused (sym (ap (λ u. is_some (answer_to peer channel (some key) u)) unknown) ∙ h)
      | inr known ↦
          answer_to-exports peer channel key name
            (sym (ap (λ u. is_some (answer_to peer channel (some key) u)) known) ∙ h)
    ]
  where
    refused : false ≡ true → exports peer channel name (find_model channel key peer.models) ≡ true
    refused h = cc

available-remote :
    (s : Serving) (key channel url : ℕ) (row : Asset)
    → row.address ≡ some url
    → (s.my_organization == row.owner) ≡ false
    → available s key channel row ≡ is_some (s.streamed_get channel row.owner url)
available-remote s key channel url row h g = ground arith

module _ (a : Backend) (peer_of : ℕ → Option Backend) (secret_of : ℕ → ℕ)
    (uuid_in : ℕ → Option ℕ) where
  -- The file of a found model that another organization owns has come through that organization.
  model_sent-exported :
      (key channel url : ℕ) (user : User) (proxied : Bool) (model : Model) (peer : Backend)
      → model.row.address ≡ some url
      → (a.serving.my_organization == model.row.owner) ≡ false
      → a.serving.streamed_get ≡ streamed_from a.serving.my_organization peer_of secret_of uuid_in
      → peer_of model.row.owner ≡ some peer
      → uuid_in url ≡ some key
      → available a.serving key channel model.row ≡ true
      → exports peer channel a.serving.my_organization (find_model channel key peer.models) ≡ true
  model_sent-exported key channel url user proxied model peer at remote by reached reads h =
      streamed_from-exports peer channel key a.serving.my_organization (secret_of model.row.owner) (
        sym (
          available-remote a.serving key channel url model.row at remote
          ∙ ap (λ get. is_some (get channel model.row.owner url)) by
          ∙ ap (λ p. is_some (answered p (uuid_in url))) reached
          ∙ ap (λ k. is_some (answered (some peer) k)) reads)
        ∙ h)
    where
      answered : Option Backend → Option ℕ → Option ℕ
      answered p k = answer_of p channel k a.serving.my_organization (secret_of model.row.owner)

  -- A user of this organization gets a model that another organization owns only where both organizations
  -- have enabled the export of models in the user's channel, and the rows of both let this organization
  -- download it. Conditions: the user has this channel, the request has the key of the row, the row's
  -- address is under the owner's backend and has the same key, and the owner is asked by `streamed_get`.
  pub model_file-exported :
      (request : Request) (key channel url : ℕ) (model : Model) (peer : Backend)
      → request.user ≡ classic_user (some channel)
      → request.uuid ≡ some key
      → find_model channel key a.models ≡ some model
      → model.row.address ≡ some url
      → (a.serving.my_organization == model.row.owner) ≡ false
      → a.serving.streamed_get ≡ streamed_from a.serving.my_organization peer_of secret_of uuid_in
      → peer_of model.row.owner ≡ some peer
      → uuid_in url ≡ some key
      → sends_file (model_file a request) ≡ true
      → (exports a channel a.serving.my_organization (some model) ≡ true)
        × (exports peer channel a.serving.my_organization (find_model channel key peer.models)
            ≡ true)
  model_file-exported request key channel url model peer user uuid found at remote by reached reads
        h =
      (
        and_left _ _ sent,
        model_sent-exported key channel url request.user request.proxied model peer at remote by
            reached reads (and_right _ _ sent),
      )
    where
      sent :
          model_sent a key channel (classic_user (some channel)) request.proxied (some model) ≡ true
      sent =
          sym (
            ap
              (λ u.
                model_sent_in a u (or_none (get_channel_name request)) request.user request.proxied)
              uuid
            ∙ ap (λ c. model_sent_in a (some key) c request.user request.proxied)
                (get_channel_name-own request channel user)
            ∙ ap (λ u. model_sent_in a (some key) (some channel) u request.proxied) user
            ∙ ap (λ m. model_sent a key channel (classic_user (some channel)) request.proxied m)
                found)
          ∙ and_right (not a.serving.isolated) _ (sym (model_file-sends a request) ∙ h)
