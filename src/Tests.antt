-- ===== src/Tests.antt =====
-- A small instance: an administrator, a member with a quota, a volume, a request, two upstreams.
pub mod Routes
pub mod Handlers
pub mod Scaling
pub mod Gates
pub mod Publishing
pub mod Hosts
pub mod Fleet
pub mod Files
pub mod Sessions
pub mod Owners
pub mod Boot
pub mod Edges
use easy_deploy.Prelude.{Option, none, some, List, [], ◌∷◌, Text, codes, true, false}
use easy_deploy.Prelude.Int.{ℤ, pos}
use easy_deploy.Store.{Db, User, ResourceRequest, VolumeSpec, role_admin, role_member, pending}
use easy_deploy.Api.{Principal}

abbrev pub root_user : User
root_user = record {
  id = pos 1;
  username = codes "root";
  password_hash = codes "h";
  role = role_admin;
  cpu_quota_milli = pos 0;
  mem_quota_mb = pos 0;
  disk_quota_mb = pos 0;
}

abbrev pub ann : User
ann = record {
  id = pos 2;
  username = codes "ann";
  password_hash = codes "h";
  role = role_member;
  cpu_quota_milli = pos 1000;
  mem_quota_mb = pos 512;
  disk_quota_mb = pos 100;
}

abbrev pub as_root : Principal
as_root = record { user_id = pos 1; username = codes "root"; role = role_admin }

abbrev pub as_ann : Principal
as_ann = record { user_id = pos 2; username = codes "ann"; role = role_member }

abbrev pub data_volume : VolumeSpec
data_volume = record {
  endpoint_id = pos 0;
  name = codes "data";
  owner = codes "ann";
  size_mb = pos 40;
}

-- Ann asks for more storage on the local host.
abbrev pub more_disk : ResourceRequest
more_disk = record {
  id = pos 7;
  user_id = pos 2;
  username = codes "ann";
  endpoint_id = pos 0;
  cpu_milli = pos 0;
  mem_mb = pos 0;
  disk_mb = pos 300;
  note = [];
  status = pending;
  reviewed_by = [];
  review_note = [];
}

abbrev pub sample : Db
sample = record {
  users = root_user ∷ ann ∷ [];
  requests = more_disk ∷ [];
  grants = [];
  volumes = data_volume ∷ [];
  routes = [];
  endpoints = [];
  services = [];
  next_user = 3;
  next_request = 8;
  next_route = 1;
  next_endpoint = 1;
  next_service = 1;
  registries = [];
  tunnels = [];
  next_registry = 1;
  next_tunnel = 1;
  outages = [];
}
