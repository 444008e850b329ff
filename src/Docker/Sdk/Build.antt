-- ===== src/Docker/Sdk/Build.antt =====
-- internal/docker/sdk_client.go: ImageBuild.

use compose_cockpit.Base.{String, Option, none, some, List, [], ◌∷◌, same, if◌then◌else◌}
use compose_cockpit.Base.Dict.{Dict}
use compose_cockpit.Base.Results.{Result, ok, err}
use compose_cockpit.Docker.Client.{ImageBuildOpts}

-- What json.Decoder gives of the output of a build before it ends: the error of a message, which is
-- empty for most, or its own error.
pub data Decoded : Type 0 where
  message bad : String → Decoded

pub data BuildError : Type 0 where
  context request decode build : String → BuildError

-- The loop over the output.
unfoldable pub read_output : List Decoded → Option BuildError
read_output [] = none
read_output (bad e ∷ output) = some (decode e)
read_output (message m ∷ output) =
    let rest = read_output output in if same m "" then rest else some (build m)

-- types.ImageBuildOptions, with Remove and ForceRemove set.
pub record BuildRequest : Type 0 where
  pub tags : List String
  pub dockerfile : String
  pub build_args : Dict String
  pub target : String

unfoldable pub build_request : ImageBuildOpts → BuildRequest
build_request opts = record {
  tags = opts.tags;
  dockerfile = if same opts.dockerfile "" then "Dockerfile" else opts.dockerfile;
  build_args = opts.build_args;
  target = opts.target;
}

-- ImageBuild, by createBuildContext and the SDK's ImageBuild with the archive that it is given.
module _ {Archive : Type 0} (create_context : String → String → Result String Archive)
    (send : Archive → BuildRequest → Result String (List Decoded)) where
  after_send : Result String (List Decoded) → Option BuildError
  unfolding read_output
  after_send (err e) = some (request e)
  after_send (ok output) = read_output output

  after_context : ImageBuildOpts → Result String Archive → Option BuildError
  unfolding after_send build_request
  after_context opts (err e) = some (context e)
  after_context opts (ok archive) = after_send (send archive (build_request opts))

  unfoldable pub image_build : ImageBuildOpts → Option BuildError
  unfolding after_context
  image_build opts = after_context opts (create_context opts.context opts.dockerfile)
