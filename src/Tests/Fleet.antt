-- ===== src/Tests/Fleet.antt =====
-- Reconciling a service of three replicas on a host where one of them runs.
use easy_deploy.Prelude.{ℕ, true, false, Option, some, List, [], ◌∷◌, Text, codes}
use easy_deploy.Prelude.Int.{ℤ, pos}
use easy_deploy.Effect.{pure}
use easy_deploy.Store.{Service, Query}
use easy_deploy.Docker.Spec.{DeploySpec}
use easy_deploy.Service.Manager.{Replica, Host}
use easy_deploy.Proxy.{Plane}
use easy_deploy.Tests.{sample}
use easy_deploy.Tests.Hosts.{web}

-- Replica 0 runs, replica 5 is left from earlier; three are asked for.
abbrev pub two_there : List Replica
two_there =
    record { id = codes "a"; index_label = codes "0"; running = true }
    ∷ record { id = codes "b"; index_label = codes "5"; running = true }
    ∷ []

abbrev pub docker_host : Host
docker_host = record { list = λ name. some two_there; deploys = λ spec. true }

abbrev pub three : Service
three = record {
  id = pos 1;
  name = codes "web";
  owner = codes "ann";
  image = codes "nginx";
  subdomain = [];
  container_port = pos 80;
  network = [];
  env = [];
  cpu_milli = pos 100;
  mem_mb = pos 64;
  replicas = pos 3;
  min_replicas = pos 1;
  max_replicas = pos 4;
  autoscale = false;
  target_cpu_pct = pos 70;
  git_repo = [];
  git_branch = [];
  git_dockerfile = [];
  webhook_token = [];
  last_image = [];
  advanced = [];
  endpoint_id = pos 0;
}

abbrev pub spec_of : ℕ → DeploySpec
spec_of i = record web { nano_cpus = pos i }

abbrev pub same_order : List Text → List Text
same_order ids = ids

abbrev pub specs_for : Service → ℕ → Query DeploySpec
specs_for svc i = pure (spec_of i)

abbrev pub host_for : ℤ → Option Host
host_for env = some docker_host

abbrev pub plane : Plane
plane = record {
  db = sample;
  xds = record {
    node_id = codes "edge";
    base_domain = codes "lvh.me";
    version = pos 1;
    cache = [];
  };
}
