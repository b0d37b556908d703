-- ===== src/Service/Replicas.antt =====
-- server/internal/service/service.go: the replicas of a service, as upstreams and as deployments.
use easy_deploy.Prelude.{ℕ, zero, suc, ◌^◌, ◌+◌, ◌||◌, List, [], ◌∷◌, Text, is_empty, if◌then◌else◌}
use easy_deploy.Prelude.Int.{ℤ, pos, negsuc, int_eq, leb_ℤ, ◌*ℤ◌, wrap64}
use easy_deploy.Prelude.Decimal.{itoa_ℕ}
use easy_deploy.Effect.{Result, ok, err, pure, attempt, ◌>>=◌}
use easy_deploy.Store.{Service, Query}
use easy_deploy.Store.Services.{list_services}
use easy_deploy.Docker.{label_service, label_replica}
use easy_deploy.Docker.Spec.{AdvancedSpec, DeploySpec}
use easy_deploy.Proxy.{ServiceUpstream, to_uint32}
use easy_deploy.Registry.{Box, RegistryError, auth_for_image}
use easy_deploy.Service.{replica_name}
use easy_deploy.Service.Ports.{offset_host_ports}

-- `make([]string, 0, n)` filled with the names of replicas `i`, `i + 1`, …
unfoldable pub replica_names : Text → ℕ → ℕ → List Text
unfolding replica_name
replica_names service i zero = []
replica_names service i (suc n) = replica_name service i ∷ replica_names service (i + 1) n

-- The rounds of `for i := 0; i < n; i++`.
abbrev pub rounds : ℤ → ℕ
rounds (pos n) = n
rounds (negsuc n) = 0

-- The loop of `Upstreams`: a service without a port or without replicas is left out.
unfoldable pub upstreams_of : List Service → List ServiceUpstream
unfolding replica_names
upstreams_of [] = []
upstreams_of (svc ∷ rest) =
    let others = upstreams_of rest in
    if int_eq svc.container_port (pos 0) || leb_ℤ svc.replicas (pos 0)
    then others
    else record {
      service = svc.name;
      subdomain = svc.subdomain;
      hosts = replica_names svc.name 0 (rounds svc.replicas);
      port = to_uint32 svc.container_port;
      endpoint_id = svc.endpoint_id;
    }
      ∷ others

unfoldable pub upstreams : Query (List ServiceUpstream)
unfolding upstreams_of
upstreams = do svcs ← list_services []; pure (upstreams_of svcs)

abbrev or_no_auth : Result RegistryError Text → Text
or_no_auth (ok token) = token
or_no_auth (err e) = []

-- `decode_env` and `decode_advanced` are what `json.Unmarshal` leaves in the variable.
module _ (box : Box) (decode_env : Text → List Text) (decode_advanced : Text → AdvancedSpec)
    (no_advanced : AdvancedSpec) where
  abbrev advanced_of : Text → AdvancedSpec
  advanced_of text = if is_empty text then no_advanced else decode_advanced text

  abbrev pub spec_with : Service → ℕ → Text → DeploySpec
  spec_with svc i auth =
      let advanced = advanced_of svc.advanced in
      record {
        name = replica_name svc.name i;
        image = svc.image;
        env = if is_empty svc.env then [] else decode_env svc.env;
        subdomain = svc.subdomain;
        container_port = svc.container_port;
        publish = [];
        network = svc.network;
        registry_auth = auth;
        owner = svc.owner;
        nano_cpus = wrap64 (svc.cpu_milli *ℤ pos 1_000_000);
        memory_bytes = wrap64 (svc.mem_mb *ℤ pos (2 ^ 20));
        extra_labels = (label_service, svc.name) ∷ (label_replica, itoa_ℕ i) ∷ [];
        advanced = record advanced { ports = offset_host_ports advanced.ports (pos i) };
      }

  -- A registry that cannot be read gives no credentials.
  unfoldable pub replica_spec : Service → ℕ → Query DeploySpec
  replica_spec svc i = do
    auth ← attempt (auth_for_image box svc.image)
    pure (spec_with svc i (or_no_auth auth))
