-- ===== src/Resolvers/Containers.antt =====
-- internal/containers: the resolvers of Docker and Podman containers behind their caches.
pub mod Answers
use mathlib.Core.Option
use server_metrics.Base.{
  ℕ, Bool, true, false, [], ◌∷◌, Option, none, some, Bytes, bytes_eq, codes, ◌==◌, if◌then◌else◌,
  is_empty, Result, ok, err,
}
use server_metrics.Error.{Error}
use server_metrics.Map.{Map, lookup}
use server_metrics.Text.{drop_while}
use server_metrics.Cgroups.Classifier.{Container}
use server_metrics.Resolvers.{Lru, cached}

-- What the client libraries tell of a container: whether it is removed when it ends, if its host
-- configuration is there, and its labels, if its configuration is there.
pub record Inspection : Type 0 where
  pub name : Bytes
  pub auto_remove : Option Bool
  pub labels : Option (Map Bytes Bytes)

-- A client library: a connection may fail, and so may a request. What it tells of a container is fixed:
-- it is what the service tells at the time of a call, or of a container that does not change while it
-- is in the cache.
pub record Service (Client : Type 0) : Type 0 where
  pub connect : Result Error Client
  pub inspect : Client → Bytes → Result Error Inspection
  pub close : Client → Option Error

abbrev pub is_slash : ℕ → Bool
is_slash c = c == b'/'

-- The container that Docker tells of.
unfoldable pub docker_container : Inspection → Container
unfolding drop_while
docker_container info = record {
  name = drop_while is_slash info.name;
  temporary = Option.get_or info.auto_remove false;
}

-- The label by which systemd knows the unit of a container.
unfoldable pub unit_label : Option (Map Bytes Bytes) → Bytes
unfolding lookup
unit_label none = []
unit_label (some labels) = Option.get_or (lookup (codes "PODMAN_SYSTEMD_UNIT") labels) []

-- The container that Podman tells of.
unfoldable pub podman_container : Inspection → Container
unfolding unit_label
podman_container info = record {
  name = info.name;
  temporary =
      if is_empty (unit_label info.labels) then Option.get_or info.auto_remove false else false;
}

module _ {Client : Type 0} (service : Service Client) where
  -- `getClient`, `getClientContext`: a connection that was made is kept.
  unfoldable pub get_client : Option Client → Result Error Client × Option Client
  get_client (some client) = (ok client, some client)
  get_client none = elim service.connect [
    | err e ↦ (err e, none)
    | ok client ↦ (ok client, some client)
  ]

  inspected : (Inspection → Container) → Result Error Inspection → Result Error Container
  inspected container (err e) = err e
  inspected container (ok info) = ok (container info)

  asked :
      (Inspection → Container)
      → Bytes
      → Result Error Client × Option Client
      → Result Error Container × Option Client
  unfolding inspected
  asked container id (err e, known) = (err e, known)
  asked container id (ok client, known) = (inspected container (service.inspect client id), known)

  -- `dockerResolver.Resolve` and `podmanResolver.Resolve`, which differ in the container that they make
  -- of what they are told.
  unfoldable pub resolve :
      (Inspection → Container) → Option Client → Bytes → Result Error Container × Option Client
  unfolding asked get_client
  resolve container known id = asked container id (get_client known)

  -- `dockerResolver.Close`
  unfoldable pub close : Option Client → Option Error × Option Client
  close none = (none, none)
  close (some client) = elim (service.close client) [
    | some e ↦ (some e, some client)
    | none ↦ (none, none)
  ]

  -- `NewDockerResolver().Resolve`
  unfoldable pub resolve_docker :
      {C : Type 0}
      → Lru Bytes Container C
      → C × Option Client
      → Bytes
      → Result Error Container × (C × Option Client)
  unfolding cached resolve docker_container
  resolve_docker lru s id = cached lru (resolve docker_container) s id

  -- `NewPodmanResolver().Resolve`
  unfoldable pub resolve_podman :
      {C : Type 0}
      → Lru Bytes Container C
      → C × Option Client
      → Bytes
      → Result Error Container × (C × Option Client)
  unfolding cached resolve podman_container
  resolve_podman lru s id = cached lru (resolve podman_container) s id
