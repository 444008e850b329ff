-- ===== src/Docker/Sdk/Answers.antt =====
-- internal/docker/sdk_client.go: what the lists of the Docker SDK and its inspection of an image are
-- translated to.

use compose_cockpit.Base.{
  String, Bool, true, false, Option, none, some, List, [], ◌∷◌, ◌++◌, map, if◌then◌else◌,
}
use compose_cockpit.Base.Dict.{Dict}
use compose_cockpit.Base.Results.{Result, ok, err}
use compose_cockpit.Base.Text.{is_char}
use compose_cockpit.Docker.Client.{ContainerInfo, NetworkInfo, VolumeInfo}

-- The arguments of `f.Add`, in the order of the calls.
filter_values : String → List String → List (String × String)
filter_values k [] = []
filter_values k (v ∷ vals) = (k, v) ∷ filter_values k vals

unfoldable pub filter_args : Dict (List String) → List (String × String)
unfolding filter_values
filter_args [] = []
filter_args ((k, vals) ∷ filters) = filter_values k vals ++ filter_args filters

-- `strings.TrimPrefix(name, "/")`
unfoldable pub trim_slash : String → String
trim_slash String.[] = ""
trim_slash (String.◌∷◌ c s) = if is_char "/" c then s else String.◌∷◌ c s

-- What the code reads of a container in the list of the SDK.
pub record Summary : Type 0 where
  pub id : String
  pub names : List String
  pub state : String
  pub labels : Dict String

first_name : List String → String
unfolding trim_slash
first_name [] = ""
first_name (n ∷ names) = trim_slash n

unfoldable pub container_info : Summary → ContainerInfo
unfolding first_name
container_info ctr = record {
  id = ctr.id;
  name = first_name ctr.names;
  state = ctr.state;
  labels = ctr.labels;
  ports = [];
}

-- `err` is passed on, and every entry is translated.
translated : {A B : Type 0} → (A → B) → Result String (List A) → Result String (List B)
translated f (err e) = err e
translated f (ok xs) = ok (map f xs)

-- ContainerList, of all containers, running or not.
unfoldable pub container_list :
    (List (String × String) → Result String (List Summary))
    → Dict (List String)
    → Result String (List ContainerInfo)
unfolding filter_args container_info translated
container_list list filters = translated container_info (list (filter_args filters))

-- What the code reads of a network and of a volume of the SDK.
pub record Named : Type 0 where
  pub id : String
  pub name : String
  pub labels : Dict String

-- NetworkList and VolumeList
pub network_list : Result String (List Named) → Result String (List NetworkInfo)
unfolding translated
network_list answer =
    translated (λ (n : Named). record { id = n.id; name = n.name; labels = n.labels }) answer

pub volume_list : Result String (List Named) → Result String (List VolumeInfo)
unfolding translated
volume_list answer = translated (λ (v : Named). record { name = v.name; labels = v.labels }) answer

-- ImageExists, by the error of the inspection; `is_not_found` is dockerclient.IsErrNotFound.
unfoldable pub image_exists : (String → Bool) → Option String → Result String Bool
image_exists is_not_found none = ok true
image_exists is_not_found (some e) = if is_not_found e then ok false else err e
