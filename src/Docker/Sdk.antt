-- ===== src/Docker/Sdk.antt =====
-- server/internal/docker/client.go, manage.go and exec.go: the methods that hand a request to the Docker
-- SDK and its answer back. Each is the request that it makes.
use easy_deploy.Prelude.{ℕ, Bool, true, false, List, [], Text, codes, is_empty, if◌then◌else◌}
use easy_deploy.Docker.{Labels}

pub record LogOptions : Type 0 where
  pub stdout : Bool
  pub stderr : Bool
  pub follow : Bool
  pub tail : Text
  pub timestamps : Bool

pub record ExecOptions : Type 0 where
  pub cmd : List Text
  pub tty : Bool
  pub stdin : Bool
  pub stdout : Bool
  pub stderr : Bool

pub data Request : Type 0 where
  ping server_version volume_list network_list : Request
  container_list : Bool → Request
  container_inspect container_start container_stop container_restart : Text → Request
  -- the container and whether by force
  container_remove : Text → Bool → Request
  container_logs : Text → LogOptions → Request
  -- the container and whether to stream
  container_stats : Text → Bool → Request
  image_list : Bool → Request
  -- the reference and the registry's credentials
  image_pull : Text → Text → Request
  -- the image, whether by force, and whether with its children
  image_remove : Text → Bool → Bool → Request
  -- the name, the driver and the labels
  network_create : Text → Text → Labels → Request
  network_remove network_inspect : Text → Request
  network_connect : Text → Text → Request
  network_disconnect : Text → Text → Bool → Request
  exec_create : Text → ExecOptions → Request
  exec_attach : Text → Bool → Request
  -- the height and the width
  exec_resize : Text → ℕ → ℕ → Request

unfoldable pub list_containers : Bool → Request
list_containers all = container_list all

unfoldable pub inspect : Text → Request
inspect id = container_inspect id

unfoldable pub start : Text → Request
start id = container_start id

unfoldable pub stop : Text → Request
stop id = container_stop id

unfoldable pub restart : Text → Request
restart id = container_restart id

unfoldable pub remove : Text → Request
remove id = container_remove id true

unfoldable pub logs : Text → Bool → Request
logs id follow = container_logs id (record {
  stdout = true;
  stderr = true;
  follow = follow;
  tail = codes "200";
  timestamps = false;
})

unfoldable pub stats : Text → Bool → Request
stats id stream = container_stats id stream

unfoldable pub list_images : Request
list_images = image_list false

unfoldable pub pull_image_auth : Text → Text → Request
pull_image_auth ref auth = image_pull ref auth

unfoldable pub pull_image : Text → Request
unfolding pull_image_auth
pull_image ref = pull_image_auth ref []

unfoldable pub remove_image : Text → Bool → Request
remove_image id force = image_remove id force true

unfoldable pub create_network : Text → Text → Labels → Request
create_network name driver labels =
    network_create name (if is_empty driver then codes "bridge" else driver) labels

unfoldable pub remove_network : Text → Request
remove_network id = network_remove id

unfoldable pub inspect_network : Text → Request
inspect_network id = network_inspect id

unfoldable pub connect_network : Text → Text → Request
connect_network network container = network_connect network container

unfoldable pub disconnect_network : Text → Text → Request
disconnect_network network container = network_disconnect network container false

-- The first request of `Exec`; the second names the instance that the first created.
unfoldable pub exec : Text → List Text → Request
exec id cmd =
    exec_create id (record { cmd = cmd; tty = true; stdin = true; stdout = true; stderr = true })

unfoldable pub attach : Text → Request
attach created = exec_attach created true

unfoldable pub exec_resize_to : Text → ℕ → ℕ → Request
exec_resize_to exec_id rows cols = exec_resize exec_id rows cols
