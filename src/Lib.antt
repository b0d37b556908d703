-- ===== src/Lib.antt =====
-- EasyDeploy: a server that runs containers and services on Docker hosts, keeps members within the
-- quotas that administrators grant, and configures Envoy to route subdomains to the replicas.
--
-- The server is the Go module under server/. Its parts, and the files here that model them:
--   server/internal/store: Store.antt has a record for each table and `Db` for the database; its
--     children hold the statements, one function for each method of `Store`, by table. The list
--     `outages` of a `Db` says for each statement to come whether the database fails to answer.
--   server/internal/docker: Docker.antt has the labels and Docker/Usage.antt the sum of an
--     owner's limits (OwnerUsage, OwnerUsageExcludingService). Docker/Options.antt and
--     Docker/Spec.antt are the configuration that a container is created with (Deploy, buildPorts,
--     applyAdvanced); Docker/Replace.antt replaces a container (EditContainer, Recreate).
--     Docker/Files.antt are the operations on the files of a volume, with Docker/Helpers.antt
--     (volumeHelper), Docker/Paths.antt (safePath) and Docker/Listing.antt (parseVolListing).
--     Docker/Edge.antt deploys the Envoy of a remote host, Docker/Remote.antt opens connections
--     (NewRemote), Docker/Build.antt builds images and reads the CPU usage, and Docker/Sdk.antt has
--     the methods that only pass a request on. What a daemon answers is a parameter.
--   server/internal/service: Service.antt names replicas, Service/Scaler.antt is one decision of
--     the autoscaler (scaleOnce) for one service and Service/Autoscaler.antt a round over all;
--     float64 is a parameter. Service/Manager.antt has the manager's operations, with the calls of
--     the daemon in order, Service/Replicas.antt what each replica is deployed with,
--     Service/Ports.antt its host ports and Service/Git.antt the build from git.
--   server/internal/proxy: Proxy.antt merges services and routes to upstreams and publishes them
--     for each environment (publish); Proxy/Described.antt describes what is to be served without
--     the loops and maps of the code; Proxy/Slug.antt is the name of an environment in a host name.
--   server/internal/endpoint: Endpoint.antt is the cache of Docker clients; `build_client` and
--     `remember` are the parts of ClientFor between which its lock is not held.
--   server/internal/tunnel: Tunnel.antt starts and stops SSH tunnels; the parts of Start are
--     separate steps in Tunnel/System.antt. Tunnel/Address.antt asks for the public address
--     (PublicIP).
--   server/internal/auth: Auth.antt is sign-in and the middleware that reads session tokens.
--   server/internal/registry: Registry.antt chooses the credentials that an image is pulled with;
--     Registry/Web.antt are the calls of a registry over HTTP.
--   server/internal/secret, server/internal/config: Secret.antt and Config.antt.
--   server/cmd/easydeploy: Boot.antt is the start of the server (run), composed of the others.
--   server/internal/api: Api.antt is what handlers share. Api/Router.antt is the table of routes
--     with their middleware, which stands in Api/Access. Api/Users, Api/Reviews, Api/Quota,
--     Api/Services, Api/Volumes, Api/Account, Api/Lists, Api/Containers, Api/Environments,
--     Api/Registries, Api/Files, Api/Exposure, Api/Edge and Api/Streams are the handlers and checks,
--     each composed as in the source; their children prove what they keep. A handler takes the
--     decoded body (`none` where it does not decode), and gives an answer or an error response with
--     the state after it: what was written before an error stays written.
--   server/internal/xds: Xds.antt is the translation of upstreams to Envoy's clusters, virtual
--     hosts and listener; Xds/Claims and Xds/Routing are about the domains of the virtual hosts,
--     Xds/Matching about the Host values that these match. Xds/Cache.antt holds the snapshots that
--     the nodes are served, and their versions; Xds/Bootstrap.antt is the configuration of an edge
--     proxy (EdgeBootstrapYAML).
--   Prelude has texts, integers, decimal numbers and rows of tables; Effect is a computation over a
--   state that may fail; Tests has a small instance and the theorems at it.
--
-- Texts are lists of code points. Go's int and int64 are integers with the wrap-around to 64 bits
-- written out where sums and products are formed (`wrap64`). Loops are structural recursion on the
-- list that they range over, or on the number of their rounds, so no fuel is needed. Where Go
-- ranges over a map, the order is a parameter. Columns of 32 bits are checked where the quotas of
-- accounts and grants are updated; the other numbers that are stored are taken to fit their columns.
-- Envoy's choice of a virtual host is modelled by its test of one domain: the domains here have no
-- star in front, so equal texts and a star at the end are all that it knows.
--
-- Not modelled: HTTP, chi, JSON, SQL and Docker drivers, git, bcrypt, AES-GCM, TLS and JWT
-- (parameters or absent), the connections that tunnels forward, the goroutines that close a stream
-- when the browser leaves, the listeners and the shutdown, the web interface, timestamps and
-- logging.
mod Prelude
pub mod Effect
pub mod Config
pub mod Secret
pub mod Store
pub mod Docker
pub mod Service
pub mod Registry
pub mod Endpoint
pub mod Proxy
pub mod Tunnel
pub mod Auth
pub mod Api
pub mod Boot
pub mod Xds
pub mod Tests
