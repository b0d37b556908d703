-- ===== src/Docker/Edge.antt =====
-- server/internal/docker/edge.go: the Envoy that runs on a remote host. The calls of the daemon are
-- written down, the latest first; what it answers, and go-connections' NewPort, are parameters.
pub mod Deploying
use easy_deploy.Prelude.{
  ℕ, Bool, true, false, not, ◌&&◌, ◌||◌, ◌==◌, leb, Option, none, some, List, [], ◌∷◌, ◌++◌, Text,
  codes, is_empty, if◌then◌else◌,
}
use easy_deploy.Prelude.Int.{ℤ, pos, leb_ℤ}
use easy_deploy.Prelude.Decimal.{atoi, itoa, is_digit}
use easy_deploy.Prelude.Prefix.{starts_with}
use easy_deploy.Prelude.Trim.{trim_left, is_space}
use easy_deploy.Effect.{Result, ok, err, Exec, pure, raise, ◌>>=◌, ◌>>◌}
use easy_deploy.Docker.{Labels, label_managed}

abbrev pub edge_envoy_image : Text
edge_envoy_image = codes "envoyproxy/envoy:v1.31-latest"

abbrev pub edge_container_name : Text
edge_container_name = codes "easydeploy-edge-proxy"

abbrev pub edge_network : Text
edge_network = codes "easydeploy-edge"

abbrev pub label_edge : Text
label_edge = codes "easydeploy.edge"

abbrev pub edge_container_port : Text
edge_container_port = codes "10000"

pub record EdgeSpec : Type 0 where
  pub node_id : Text
  pub bootstrap_yaml : Text
  pub host_port : ℤ

pub record EdgeStatus : Type 0 where
  pub present : Bool
  pub running : Bool
  pub host_port : ℤ
  pub image : Text

-- What a container is created with.
pub record EdgeContainer : Type 0 where
  pub name : Text
  pub image : Text
  pub cmd : List Text
  -- the port that is exposed, and the address and the port of the host that it is bound to
  pub port : Text
  pub host_ip : Text
  pub host_port : Text
  pub labels : Labels
  pub restart : Text
  pub network : Text

pub data EdgeCall : Type 0 where
  -- the name, the driver and the labels
  create_network : Text → Text → Labels → EdgeCall
  remove : Text → EdgeCall
  pull : Text → EdgeCall
  create : EdgeContainer → EdgeCall
  -- the container, the directory, the name in the archive and the content
  copy_to : Text → Text → Text → Text → EdgeCall
  start : Text → EdgeCall

-- What an inspection of the edge container tells: whether its state says that it runs, and the host
-- ports that its HTTP port is bound to; the state may be missing.
pub data Inspected : Type 0 where
  found : Option Bool → List Text → Inspected
  missing : Inspected
  failed : Text → Inspected

pub data Removed : Type 0 where
  removed not_there : Removed
  not_removed : Text → Removed

-- What the daemon answers; an inspection may depend on the calls before it. `none` of a network's
-- creation is a success, and `some` an error.
pub record EdgeHost : Type 0 where
  pub has_network : Bool
  pub network_error : Option Text
  pub has_image : Bool
  pub new_port : Text → Text → Option Text
  pub creates : EdgeContainer → Option Text
  pub copies : Bool
  pub starts : Bool
  pub inspect : List EdgeCall → Inspected
  pub removes : Removed

abbrev pub Task : Type 0 → Type 0
Task A = Exec (List EdgeCall) Text A

abbrev pub call : EdgeCall → Task Unit
call c cs = (ok tt, c ∷ cs)

abbrev pub answered : {A : Type 0} → Text → Option A → Task A
answered why none cs = (err why, cs)
answered why (some a) cs = (ok a, cs)

abbrev pub succeeded : Text → Bool → Task Unit
succeeded why true cs = (ok tt, cs)
succeeded why false cs = (err why, cs)

-- `strings.Contains`
unfoldable pub contains : Text → Text → Bool
contains part [] = is_empty part
contains part (c ∷ s) = starts_with part (c ∷ s) || contains part s

-- docker/manage.go: `CreateNetwork`, with its default driver.
unfoldable pub make_network : Option Text → Text → Text → Labels → Task (Option Text)
make_network answer name driver labels = do
  call (create_network name (if is_empty driver then codes "bridge" else driver) labels)
  pure answer

-- An error that says that the network is there already is none.
abbrev network_made : Option Text → Task Unit
network_made none = pure tt
network_made (some why) =
    if contains (codes "already exists") why then pure tt else raise (codes "create edge network")

unfoldable pub edge_container : Text → ℤ → Text → EdgeContainer
edge_container node_id host_port port = record {
  name = edge_container_name;
  image = edge_envoy_image;
  cmd =
      codes "-c"
      ∷ codes "/bootstrap.yaml"
      ∷ codes "--service-node"
      ∷ node_id
      ∷ codes "--service-cluster"
      ∷ codes "easydeploy"
      ∷ [];
  port = port;
  host_ip = codes "0.0.0.0";
  host_port = itoa host_port;
  labels = (label_managed, codes "true") ∷ (label_edge, codes "true") ∷ [];
  restart = codes "unless-stopped";
  network = edge_network;
}

abbrev pub settled_port : ℤ → ℤ
settled_port n = if leb_ℤ n (pos 0) then pos 80 else n

-- The digits that `%d` reads, with a sign before them.
unfoldable pub leading_digits : Text → Text
leading_digits [] = []
leading_digits (c ∷ s) = if is_digit c then c ∷ leading_digits s else []

abbrev signed_digits : Text → Text
signed_digits [] = []
signed_digits (c ∷ s) =
    if c == b'-' || c == b'+' then c ∷ leading_digits s else leading_digits (c ∷ s)

abbrev number_or_zero : Option ℤ → ℤ
number_or_zero none = pos 0
number_or_zero (some n) = n

-- `fmt.Sscanf(s, "%d", &n)` into an `n` that is 0: a newline is no blank.
unfoldable pub scan_int : Text → ℤ
unfolding leading_digits
scan_int s = number_or_zero (atoi (signed_digits (trim_left (λ c. is_space c && not (c == 10)) s)))

abbrev bound_port : List Text → ℤ
bound_port [] = pos 0
bound_port (p ∷ ps) = scan_int p

abbrev is_running : Option Bool → Bool
is_running none = false
is_running (some b) = b

abbrev status_of : Inspected → Task EdgeStatus
status_of missing =
    pure (record { present = false; running = false; host_port = pos 0; image = [] })
status_of (failed why) = raise why
status_of (found running ports) = pure (record {
  present = true;
  running = is_running running;
  host_port = bound_port ports;
  image = edge_envoy_image;
})

abbrev removal : Removed → Task Unit
removal removed = pure tt
removal not_there = pure tt
removal (not_removed why) = raise why

module _ (h : EdgeHost) where
  unfoldable pub ensure_edge_network : Task Unit
  unfolding make_network contains
  ensure_edge_network =
      if h.has_network
      then pure tt
      else (make_network h.network_error edge_network (codes "bridge") [] >>= network_made)

  -- The name in the archive is the path without its leading slash.
  unfoldable pub copy_edge_bootstrap : Text → Text → Task Unit
  copy_edge_bootstrap id yaml = do
    call (copy_to id (codes "/") (codes "bootstrap.yaml") yaml)
    succeeded (codes "write edge bootstrap") h.copies

  -- The last statements: create, write the configuration, start.
  unfoldable pub launch : EdgeContainer → Text → Task Unit
  unfolding copy_edge_bootstrap
  launch container yaml = do
    call (create container)
    id ← answered (codes "create edge proxy") (h.creates container)
    copy_edge_bootstrap id yaml
    call (start id)
    succeeded (codes "start edge proxy") h.starts

  -- After the pull: the port of the listener, and the container.
  unfoldable pub place : EdgeSpec → Task Unit
  unfolding edge_container launch
  place spec = do
    port ← answered (codes "port") (h.new_port (codes "tcp") edge_container_port)
    launch (edge_container spec.node_id (settled_port spec.host_port) port) spec.bootstrap_yaml

  -- The answers to the removal and to the pull are not looked at.
  unfoldable pub deploy_edge : EdgeSpec → Task Unit
  unfolding ensure_edge_network place
  deploy_edge spec =
      if is_empty spec.node_id || is_empty spec.bootstrap_yaml
      then raise (codes "edge spec requires node id and bootstrap")
      else (do
        ensure_edge_network
        call (remove edge_container_name)
        if h.has_image then pure tt else call (pull edge_envoy_image)
        place spec)

  unfoldable pub edge_status : Task EdgeStatus
  unfolding scan_int
  edge_status cs = status_of (h.inspect cs) cs

  unfoldable pub remove_edge : Task Unit
  remove_edge = do call (remove edge_container_name); removal h.removes
