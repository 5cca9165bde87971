-- ===== src/Resolvers/Containers/Answers.antt =====
-- The containers that the resolvers name are those that the services tell of.
use server_metrics.Base.{◌≡◌, sym, refl, Option, Bytes, Result, ok, err, ok_cancel}
use server_metrics.Error.{Error}
use server_metrics.Cgroups.Classifier.{Container}
use server_metrics.Resolvers.{Lru}
use server_metrics.Resolvers.Truthful.{IsTruthful, IsFair, cached-IsFair}
use server_metrics.Resolvers.Containers.{
  Inspection, Service, docker_container, podman_container, get_client, inspected, asked, resolve,
  resolve_docker, resolve_podman,
}

module _ {Client : Type 0} (service : Service Client) (container : Inspection → Container) where
  -- Some connection to the service tells of this container.
  abbrev pub Tells : Bytes → Container → Type 0
  Tells id found =
      (client : Client) × (info : Inspection) × (service.inspect client id ≡ ok info)
      × (found ≡ container info)

  inspected-Tells :
      (id : Bytes) (client : Client) (r : Result Error Inspection) (found : Container)
      → service.inspect client id ≡ r
      → inspected service container r ≡ ok found
      → Tells id found
  unfolding inspected
  inspected-Tells id client (err e) found asked h = cc
  inspected-Tells id client (ok info) found asked h = (client, info, asked, sym (ok_cancel h))

  asked-Tells :
      (id : Bytes) (r : Result Error Client × Option Client) (found : Container)
      → (asked service container id r).0 ≡ ok found
      → Tells id found
  unfolding asked
  asked-Tells id (err e, known) found h = cc
  asked-Tells id (ok client, known) found h =
      inspected-Tells id client (service.inspect client id) found refl h

  resolve-Tells :
      (known : Option Client) (id : Bytes) (found : Container)
      → (resolve service container known id).0 ≡ ok found
      → Tells id found
  unfolding resolve
  resolve-Tells known id found h = asked-Tells id (get_client service known) found h

-- Where every entry of a cache is what its service has told of a container, the resolvers of Docker and
-- of Podman, from the cache or not, return what their services tell of the container that they are
-- asked for, or an error, and leave such caches.
pub resolve_containers-IsFair :
    {Docker Podman C : Type 0} (docker : Service Docker) (podman : Service Podman)
    (lru : Lru Bytes Container C) (c d : C) (known : Option Docker) (known' : Option Podman)
    (id : Bytes)
    → IsTruthful lru (resolve docker docker_container) (Tells docker docker_container) c
    → IsTruthful lru (resolve podman podman_container) (Tells podman podman_container) d
    → IsFair lru
        (resolve docker docker_container)
        (Tells docker docker_container)
        id
        (resolve_docker docker lru (c, known) id)
      × IsFair lru
          (resolve podman podman_container)
          (Tells podman podman_container)
          id
          (resolve_podman podman lru (d, known') id)
unfolding resolve_docker resolve_podman
resolve_containers-IsFair docker podman lru c d known known' id h h' = (
  cached-IsFair lru (resolve docker docker_container) (Tells docker docker_container)
      (resolve-Tells docker docker_container) c known id h,
  cached-IsFair lru (resolve podman podman_container) (Tells podman podman_container)
      (resolve-Tells podman podman_container) d known' id h',
)
