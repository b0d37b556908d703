-- ===== src/Service/Git.antt =====
-- server/internal/service/git.go: a service is built from its repository and rolled out. Temporary
-- directories, git and the daemon that builds are parameters.
use easy_deploy.Prelude.{ℕ, Bool, Option, List, Text, codes, is_empty, ◌++◌, if◌then◌else◌}
use easy_deploy.Prelude.Int.{ℤ}
use easy_deploy.Effect.{Result, ok, err, raise, ◌>>=◌, ◌>>◌}
use easy_deploy.Store.{Service, Query}
use easy_deploy.Docker.Spec.{DeploySpec}
use easy_deploy.Docker.Build.{BuildRequest, BuildLine, build_image}
use easy_deploy.Proxy.{Publish}
use easy_deploy.Service.Manager.{Host, Task, from_docker, redeploy, reached}

-- `os.MkdirTemp`, the clone of one branch into a directory, and the build on a host.
pub record Workshop : Type 0 where
  pub temp_dir : Option Text
  pub clones : Text → Text → Text → Bool
  pub archives : Text → Bool
  pub builder : ℤ → Option (BuildRequest → Option (List BuildLine))

abbrev done_or : Text → Bool → Task Unit
done_or why worked w = (if worked then ok tt else err (from_docker why), w)

abbrev built_or : Result Text Unit × List Text → Task Unit
built_or (ok u, log) w = (ok tt, w)
built_or (err why, log) w = (err (from_docker (codes "build: " ++ why)), w)

abbrev pub branch_of : Service → Text
branch_of svc = if is_empty svc.git_branch then codes "main" else svc.git_branch

abbrev pub tag_of : Service → Text
tag_of svc = codes "easydeploy/" ++ (svc.name ++ codes ":latest")

module _ (shop : Workshop) (spec_for : Service → ℕ → Query DeploySpec)
    (client_for : ℤ → Option Host) (sync : Publish Unit) (order : List Text → List Text) where
  -- The image is rolled out only after a build that ended well.
  unfoldable pub build_and_redeploy : Service → Task Unit
  unfolding build_image redeploy
  build_and_redeploy svc =
      if is_empty svc.git_repo then raise (from_docker (codes "no git repo configured")) else (do
        dir ← reached shop.temp_dir
        done_or (codes "git clone") (shop.clones dir svc.git_repo (branch_of svc))
        build ← reached (shop.builder svc.endpoint_id)
        built_or (build_image shop.archives build dir svc.git_dockerfile (tag_of svc))
        redeploy spec_for client_for sync order svc.name (tag_of svc))
