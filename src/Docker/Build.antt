-- ===== src/Docker/Build.antt =====
-- server/internal/docker/build.go: the CPU usage of a container, and building an image. The archive, the
-- daemon's answers, JSON and float64 are parameters.
use easy_deploy.Prelude.{
  ℕ, Bool, not, ◌||◌, Option, none, some, List, [], ◌∷◌, ◌++◌, Text, codes, is_empty, length,
  if◌then◌else◌,
}
use easy_deploy.Prelude.Int.{pos}
use easy_deploy.Effect.{Result, ok, err}
use easy_deploy.Service.Scaler.{Float64}

-- `types.StatsJSON`, of which the computation uses this much.
pub record Stats : Type 0 where
  pub total_usage : ℕ
  pub pre_total_usage : ℕ
  pub system_usage : ℕ
  pub pre_system_usage : ℕ
  pub online_cpus : ℕ
  pub percpu_usage : List ℕ

module _ (fl : Float64) (sub mul : fl.F → fl.F → fl.F) (le eq : fl.F → fl.F → Bool) where
  open fl use {F, of_int, div}

  abbrev of_uint : ℕ → F
  of_uint n = of_int (pos n)

  abbrev online : Stats → F
  online v =
      if eq (of_uint v.online_cpus) (of_uint 0)
      then of_uint (length v.percpu_usage)
      else of_uint v.online_cpus

  -- The usage in percent of one core, of a sample.
  unfoldable pub cpu_of : Stats → F
  cpu_of v =
      let cpu_delta = sub (of_uint v.total_usage) (of_uint v.pre_total_usage) in
      let system_delta = sub (of_uint v.system_usage) (of_uint v.pre_system_usage) in
      if le system_delta (of_uint 0) || eq (online v) (of_uint 0)
      then of_uint 0
      else mul (mul (div cpu_delta system_delta) (online v)) (of_uint 100)

  -- `none` is a container without statistics, or a sample that does not decode.
  unfoldable pub cpu_percent : Option (Option Stats) → Option F
  unfolding cpu_of
  cpu_percent none = none
  cpu_percent (some none) = none
  cpu_percent (some (some v)) = some (cpu_of v)

-- A line of the build's output, or one that cannot be read.
pub data BuildLine : Type 0 where
  -- the fields `stream` and `error`
  message : Text → Text → BuildLine
  unreadable : BuildLine

pub record BuildRequest : Type 0 where
  pub context : Text
  pub dockerfile : Text
  pub tag : Text

-- The loop over the output: the lines for the log, and how it ended.
unfoldable pub read_output : List BuildLine → Result Text Unit × List Text
read_output [] = (ok tt, [])
read_output (unreadable ∷ lines) = (err (codes "read build output"), [])
read_output (message stream error ∷ lines) =
    let rest = read_output lines in
    if not (is_empty error)
    then (err (codes "build failed: " ++ error), [])
    else (rest.0, if is_empty stream then rest.1 else stream ∷ rest.1)

abbrev output_of : Option (List BuildLine) → Result Text Unit × List Text
output_of none = (err (codes "image build"), [])
output_of (some lines) = read_output lines

-- `archives` is whether the directory can be put into an archive; `build` the daemon's output.
unfoldable pub build_image :
    (Text → Bool)
    → (BuildRequest → Option (List BuildLine))
    → Text
    → Text
    → Text
    → Result Text Unit × List Text
unfolding read_output
build_image archives build context dockerfile tag =
    if archives context
    then output_of (
        build (record {
          context = context;
          dockerfile = if is_empty dockerfile then codes "Dockerfile" else dockerfile;
          tag = tag;
        }))
    else (err (codes "tar build context"), [])
