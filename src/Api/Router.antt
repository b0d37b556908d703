-- ===== src/Api/Router.antt =====
-- server/internal/api/server.go: the routes below /api, and the middleware that a request passes on its
-- way to a handler. Which route a request matches is chi's choice, and is not modelled.
pub mod Guards
use Prim.Native.String.{String}
use easy_deploy.Prelude.{Bool, true, false, Option, none, some, List, [], ◌∷◌, ◌++◌, Text, codes}
use easy_deploy.Prelude.Int.{ℤ, pos}
use easy_deploy.Docker.{ContainerInfo, Labels}
use easy_deploy.Auth.{Jwt, authenticate, require_admin}
use easy_deploy.Api.{Principal, Handler}
use easy_deploy.Api.Access.{
  endpoint_id, require_endpoint_access, require_container_owner, require_volume_owner,
  require_network_owner, require_registry_owner,
}

pub data Method : Type 0 where
  get post put remove : Method

-- The middleware besides that of every session.
pub data Gate : Type 0 where
  unguarded signed_in container_owner volume_owner network_owner registry_owner admins_only : Gate

pub record Entry : Type 0 where
  pub method : Method
  pub pattern : Text
  pub handler : Text
  pub gate : Gate

abbrev entry : Method → String → String → Gate → Entry
entry method pattern handler gate = record {
  method = method;
  pattern = codes pattern;
  handler = codes handler;
  gate = gate;
}

abbrev public_routes : List Entry
public_routes =
    entry get "/health" "handleHealth" unguarded
    ∷ entry post "/auth/login" "handleLogin" unguarded
    ∷ entry post "/hooks/{token}" "handleWebhook" unguarded
    ∷ []

abbrev user_routes : List Entry
user_routes =
    entry get "/me" "handleMe" signed_in
    ∷ entry post "/requests" "handleCreateRequest" signed_in
    ∷ entry get "/requests" "handleListRequests" signed_in
    ∷ entry get "/endpoints" "handleListEndpoints" signed_in
    ∷ entry get "/endpoints/{id}/status" "handleEndpointStatus" signed_in
    ∷ entry get "/containers" "handleListContainers" signed_in
    ∷ entry get "/services" "handleListServices" signed_in
    ∷ entry post "/services" "handleCreateService" signed_in
    ∷ entry get "/services/{name}" "handleGetService" signed_in
    ∷ entry put "/services/{name}" "handleUpdateService" signed_in
    ∷ entry post "/services/{name}/scale" "handleScaleService" signed_in
    ∷ entry post "/services/{name}/redeploy" "handleRedeployService" signed_in
    ∷ entry post "/services/{name}/subdomain" "handleSetServiceSubdomain" signed_in
    ∷ entry remove "/services/{name}" "handleDeleteService" signed_in
    ∷ entry get "/volumes" "handleListVolumes" signed_in
    ∷ entry get "/volumes/usage" "handleVolumeUsage" signed_in
    ∷ entry get "/volume-names" "handleVolumeNames" signed_in
    ∷ entry post "/volumes" "handleCreateVolume" signed_in
    ∷ entry get "/networks" "handleListNetworks" signed_in
    ∷ entry post "/networks" "handleCreateNetwork" signed_in
    ∷ entry get "/registries" "handleListRegistries" signed_in
    ∷ entry post "/registries" "handleCreateRegistry" signed_in
    ∷ entry post "/registries/test" "handleTestRegistry" signed_in
    ∷ []

abbrev container_routes : List Entry
container_routes =
    entry get "/containers/{id}" "handleInspectContainer" container_owner
    ∷ entry post "/containers/{id}/start" "handleContainerAction Start" container_owner
    ∷ entry post "/containers/{id}/stop" "handleContainerAction Stop" container_owner
    ∷ entry post "/containers/{id}/restart" "handleContainerAction Restart" container_owner
    ∷ entry put "/containers/{id}" "handleEditContainer" container_owner
    ∷ entry post "/containers/{id}/update" "handleUpdateContainer" container_owner
    ∷ entry remove "/containers/{id}" "handleContainerAction Remove" container_owner
    ∷ entry get "/containers/{id}/logs" "handleLogs" container_owner
    ∷ entry get "/containers/{id}/stats" "handleStats" container_owner
    ∷ entry get "/containers/{id}/exec" "handleExec" container_owner
    ∷ []

abbrev volume_routes : List Entry
volume_routes =
    entry get "/volumes/{name}" "handleInspectVolume" volume_owner
    ∷ entry post "/volumes/{name}/resize" "handleResizeVolume" volume_owner
    ∷ entry get "/volumes/{name}/browse" "handleBrowseVolume" volume_owner
    ∷ entry post "/volumes/{name}/mkdir" "handleMkdirVolume" volume_owner
    ∷ entry post "/volumes/{name}/upload" "handleUploadVolume" volume_owner
    ∷ entry get "/volumes/{name}/download" "handleDownloadVolume" volume_owner
    ∷ entry remove "/volumes/{name}/file" "handleDeleteVolumeFile" volume_owner
    ∷ entry remove "/volumes/{name}" "handleRemoveVolume" volume_owner
    ∷ []

abbrev network_routes : List Entry
network_routes =
    entry get "/networks/{id}" "handleInspectNetwork" network_owner
    ∷ entry remove "/networks/{id}" "handleRemoveNetwork" network_owner
    ∷ entry post "/networks/{id}/connect" "handleConnectNetwork" network_owner
    ∷ entry post "/networks/{id}/disconnect" "handleDisconnectNetwork" network_owner
    ∷ []

abbrev registry_routes : List Entry
registry_routes =
    entry remove "/registries/{id}" "handleDeleteRegistry" registry_owner
    ∷ entry get "/registries/{id}/catalog" "handleRegistryCatalog" registry_owner
    ∷ entry get "/registries/{id}/tags" "handleRegistryTags" registry_owner
    ∷ []

abbrev admin_routes : List Entry
admin_routes =
    entry get "/images" "handleListImages" admins_only
    ∷ entry get "/users" "handleListUsers" admins_only
    ∷ entry post "/users" "handleCreateUser" admins_only
    ∷ entry put "/users/{id}/quota" "handleUpdateUserQuota" admins_only
    ∷ entry put "/users/{id}/role" "handleSetUserRole" admins_only
    ∷ entry put "/users/{id}/password" "handleResetPassword" admins_only
    ∷ entry get "/users/{id}/environments" "handleGetUserEnvironments" admins_only
    ∷ entry put "/users/{id}/environments" "handleSetUserEnvironments" admins_only
    ∷ entry remove "/users/{id}" "handleDeleteUser" admins_only
    ∷ entry post "/endpoints" "handleCreateEndpoint" admins_only
    ∷ entry put "/endpoints/{id}" "handleUpdateEndpoint" admins_only
    ∷ entry remove "/endpoints/{id}" "handleDeleteEndpoint" admins_only
    ∷ entry get "/endpoints/{id}/edge" "handleEdgeStatus" admins_only
    ∷ entry post "/endpoints/{id}/edge" "handleDeployEdge" admins_only
    ∷ entry remove "/endpoints/{id}/edge" "handleRemoveEdge" admins_only
    ∷ entry post "/requests/{id}/review" "handleReviewRequest" admins_only
    ∷ entry remove "/images/{id}" "handleRemoveImage" admins_only
    ∷ entry get "/routes" "handleListRoutes" admins_only
    ∷ entry post "/routes" "handleUpsertRoute" admins_only
    ∷ entry remove "/routes/{subdomain}" "handleDeleteRoute" admins_only
    ∷ entry get "/public-ip" "handlePublicIP" admins_only
    ∷ entry get "/tunnels" "handleListTunnels" admins_only
    ∷ entry post "/tunnels" "handleCreateTunnel" admins_only
    ∷ entry post "/tunnels/{id}/start" "handleStartTunnel" admins_only
    ∷ entry post "/tunnels/{id}/stop" "handleStopTunnel" admins_only
    ∷ entry remove "/tunnels/{id}" "handleDeleteTunnel" admins_only
    ∷ []

unfoldable pub route_table : List Entry
route_table =
    public_routes
    ++ (user_routes
        ++ (container_routes
            ++ (volume_routes ++ (network_routes ++ (registry_routes ++ admin_routes)))))

-- What the middleware read of a request; `target` is the URL parameter `id` or `name`.
pub record Request : Type 0 where
  pub authorization : Text
  pub token_query : Text
  pub endpoint_header : Text
  pub endpoint_query : Text
  pub target : Text

-- How the request's host answers; `none` is a host that cannot be reached.
pub record Inspectors : Type 0 where
  pub containers : Option (Text → Option ContainerInfo)
  pub volumes : Option (Text → Option Labels)
  pub networks : Option (Text → Option Labels)

-- `auth.Current` without a session
abbrev nobody : Principal
nobody = record { user_id = pos 0; username = []; role = [] }

unfoldable pub inner_gate :
    {A : Type 0} → Inspectors → Gate → Text → Principal → Handler A → Handler A
inner_gate hosts container_owner target p next =
    require_container_owner p hosts.containers target next
inner_gate hosts volume_owner target p next = require_volume_owner p hosts.volumes target next
inner_gate hosts network_owner target p next = require_network_owner p hosts.networks target next
inner_gate hosts registry_owner target p next = require_registry_owner p target next
inner_gate hosts admins_only target p next = require_admin p next
inner_gate hosts unguarded target p next = next
inner_gate hosts signed_in target p next = next

module _ (jwt : Jwt) (secret : Text) (now : ℤ) (hosts : Inspectors) {A : Type 0} where
  unfoldable pub session : Gate → Request → (Principal → Handler A) → Handler A
  unfolding inner_gate
  session gate req next = authenticate jwt secret now req.authorization req.token_query λ p.
      require_endpoint_access p (endpoint_id req.endpoint_header req.endpoint_query)
        (inner_gate hosts gate req.target p (next p))

  -- The middleware of a route around its handler.
  unfoldable pub serve : Gate → Request → (Principal → Handler A) → Handler A
  unfolding session
  serve unguarded req next = next nobody
  serve signed_in req next = session signed_in req next
  serve container_owner req next = session container_owner req next
  serve volume_owner req next = session volume_owner req next
  serve network_owner req next = session network_owner req next
  serve registry_owner req next = session registry_owner req next
  serve admins_only req next = session admins_only req next
