-- ===== src/Controllers/Snapshots/Texts.antt =====
-- internal/controllers/snapshot_controller.go: extractContainerID, registryFromImage and
-- buildDockerConfigJSON up to its JSON.
use devpods.Prelude.{
  Bool, false, not, ◌||◌, Option, none, some, List, [], ◌∷◌, ◌++◌, ◌==◌, if◌then◌else◌, Outcome,
  refused, passed, Text, bytes, text_eq, is_empty, has_prefix,
}
use devpods.Api.Kube.{ContainerStatus}

abbrev pub drop_one : Text → Text
drop_one [] = []
drop_one (_ ∷ s) = s

-- What follows the first "://", as `id[idx+3:]`; none without it.
unfoldable pub after_scheme : Text → Option Text
after_scheme [] = none
after_scheme (a ∷ s) =
    let rest = after_scheme s in
    if has_prefix (bytes "://") (a ∷ s) then some (drop_one (drop_one s)) else rest

unfoldable pub bare_id : Text → Text
unfolding after_scheme
bare_id id = elim (after_scheme id) [ none ↦ id | some rest ↦ rest ]

-- `quote` prints with the verb %q.
unfoldable pub extract_container_id :
    (Text → Text) → List ContainerStatus → Text → Outcome Text Text
unfolding bare_id
extract_container_id quote [] name =
    refused (bytes "container " ++ quote name ++ bytes " not found in pod status")
extract_container_id quote (cs ∷ statuses) name =
    let rest = extract_container_id quote statuses name in
    if text_eq cs.name name
    then (if is_empty cs.container_id
        then refused (bytes "container " ++ quote name ++ bytes " has no containerID")
        else passed (bare_id cs.container_id))
    else rest

-- The text before the first slash; none without one.
unfoldable pub before_slash : Text → Option Text
before_slash [] = none
before_slash (c ∷ s) =
    let rest = before_slash s in
    if c == b'/' then some [] else (elim rest [ none ↦ none | some t ↦ some (c ∷ t) ])

unfoldable pub has_dot_or_colon : Text → Bool
has_dot_or_colon [] = false
has_dot_or_colon (c ∷ s) = (c == b'.') || ((c == b':') || has_dot_or_colon s)

abbrev pub docker_hub : Text
docker_hub = bytes "https://index.docker.io/v1/"

unfoldable pub registry_from_image : Text → Text
unfolding before_slash has_dot_or_colon
registry_from_image image = elim (before_slash image) [
  | none ↦ docker_hub
  | some host ↦ if not (has_dot_or_colon host) then docker_hub else host
]

-- The map under "auths": one registry with its three entries.
pub record DockerConfig : Type 0 where
  pub registry : Text
  pub username : Text
  pub password : Text
  pub auth : Text

unfoldable pub docker_config : (Text → Text) → Text → Text → Text → DockerConfig
docker_config base64 registry username password = record {
  registry = registry;
  username = username;
  password = password;
  auth = base64 (username ++ b':' ∷ password);
}
