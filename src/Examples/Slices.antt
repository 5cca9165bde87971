-- ===== src/Examples/Slices.antt =====
-- The groups of internal/cgroups/classifier/classifier_test.go.
use server_metrics.Base.{
  true, false, ◌≡◌, refl, List, [], ◌∷◌, none, some, Bytes, codes, ℤ, pos, negsuc, ◌==◌, Result, ok,
  err, same, if◌then◌else◌,
}
use server_metrics.Regexp.{literal, repeated}
use server_metrics.Base.{arith}
use server_metrics.Cgroups.Classifier.{dbus_service}
use server_metrics.Cgroups.Classifier.Units.{classify_slice-unit}
use server_metrics.Regexp.{find_submatch}
use server_metrics.Text.{is_digit}
use server_metrics.Error.{Error, system}
use server_metrics.Cgroups.Classifier.{Container, Classifier, Verdict, unclassified, classify_slice}

abbrev known_user : ℤ → Result Error Bytes
known_user (pos n) = if n == 1000 then ok (codes "dmitry") else err (system 2)
known_user (negsuc n) = err (system 2)

abbrev docker_id : Bytes
docker_id = codes "3413aa74fd2ff75f15b32438dce58a63b73bc04c4bd476ca7ab54c12da6a43d4"

abbrev podman_id : Bytes
podman_id = codes "cdbcfe0c9ba72a9908bca0d50f438275178f5e94229ac54e2ea9bd71e70e4134"

-- One container is known, all others are temporary.
abbrev known_container : Bytes → Bytes → Result Error Container
known_container known id = ok (
    if same id known
    then record { name = codes "server-metrics"; temporary = false }
    else record { name = []; temporary = true })

abbrev resolvers : Classifier
resolvers = record {
  users = known_user;
  docker = known_container docker_id;
  podman = known_container podman_id;
}

abbrev traversed : Bytes → Verdict
traversed service = ok (some (record { service = service; total_excluding = none }))

abbrev total : Bytes → List Bytes → Verdict
total service exclude = ok (some (record { service = service; total_excluding = some exclude }))

root_test : classify_slice resolvers (codes "/") ≡ traversed (codes "kernel")
unfolding classify_slice literal repeated
root_test = refl

remote_build_test :
    classify_slice resolvers (codes "/buildah-buildah4144850985")
    ≡ total (codes "podman-builder") ([])
unfolding classify_slice literal repeated
remote_build_test = refl

init_test : classify_slice resolvers (codes "/init.scope") ≡ traversed (codes "init")
unfolding classify_slice literal repeated
init_test = refl

mount_test :
    classify_slice resolvers (codes "/sys-fs-fuse-connections.mount")
    ≡ traversed (codes "sys-fs-fuse-connections.mount")
unfolding classify_slice literal repeated
mount_test = refl

slice_test : classify_slice resolvers (codes "/system.slice") ≡ unclassified
unfolding classify_slice literal repeated
slice_test = refl

system_mount_test :
    classify_slice resolvers (codes "/system.slice/boot-efi.mount")
    ≡ traversed (codes "boot-efi.mount")
unfolding classify_slice literal repeated
system_mount_test = refl

local_build_test :
    classify_slice resolvers (codes "/system.slice/crun-buildah-buildah2365838308.scope")
    ≡ total (codes "podman-builder") ([])
unfolding classify_slice literal repeated
local_build_test = refl

docker_test :
    classify_slice resolvers (
      codes
        "/system.slice/docker-3413aa74fd2ff75f15b32438dce58a63b73bc04c4bd476ca7ab54c12da6a43d4.scope")
    ≡ traversed (codes "server-metrics")
unfolding classify_slice literal repeated
docker_test = refl

docker_temporary_test :
    classify_slice resolvers (
      codes
        "/system.slice/docker-89eae77df5fb5de73ccc3eff21cd7f1c72434fef6ade1328924315ebe7eeadd5.scope")
    ≡ traversed (codes "docker-containers")
unfolding classify_slice literal repeated
docker_temporary_test = refl

healthcheck_test :
    classify_slice resolvers (
      codes
        "/system.slice/cdbcfe0c9ba72a9908bca0d50f438275178f5e94229ac54e2ea9bd71e70e4134-20bd978843cc5ad8.service")
    ≡ total (codes "server-metrics/healthcheck") ([])
unfolding classify_slice literal repeated
healthcheck_test = refl

temporary_healthcheck_test :
    classify_slice resolvers (
      codes
        "/system.slice/dc9145bfa6eeb9f415dea90c2eaabbac6f35e844cfc71f25cf3c4567773a0d83-522f7b6f4c650c72.service")
    ≡ total (codes "podman-containers/healthcheck") ([])
unfolding classify_slice literal repeated
temporary_healthcheck_test = refl

nginx_test :
    classify_slice resolvers (codes "/system.slice/nginx.service") ≡ total (codes "nginx") ([])
unfolding classify_slice literal repeated
nginx_test = refl

snap_test :
    classify_slice resolvers (
      codes
        "/system.slice/snap.shadowsocks-rust.ssserver-daemon-b5bad6a9-8ff1-4730-9f03-83b9d5998ddd.scope")
    ≡ traversed (codes "ssserver-daemon")
unfolding classify_slice literal repeated
snap_test = refl

dbus_test :
    classify_slice resolvers (
      codes
        "/system.slice/system-dbus\\x2d:1.4\\x2dorg.fedoraproject.SetroubleshootPrivileged.slice")
    ≡ total (codes "dbus:org.fedoraproject.SetroubleshootPrivileged") ([])
unfolding classify_slice literal repeated
dbus_test = refl

openvpn_slice_test :
    classify_slice resolvers (codes "/system.slice/system-openvpn\\x2dserver.slice") ≡ unclassified
unfolding classify_slice literal repeated
openvpn_slice_test = refl

openvpn_test :
    classify_slice resolvers
      (codes "/system.slice/system-openvpn\\x2dserver.slice/openvpn-server@proxy.service")
    ≡ total (codes "openvpn-server@proxy") ([])
unfolding classify_slice literal repeated
openvpn_test = refl

docker_builder_test :
    classify_slice resolvers (codes "/system.slice/system.slice:docker:jvifp9a6b1lxa1kuw8bwfcovf")
    ≡ traversed (codes "docker-builder")
unfolding classify_slice literal repeated
docker_builder_test = refl

udevd_test :
    classify_slice resolvers (codes "/system.slice/systemd-udevd.service")
    ≡ total (codes "systemd-udevd") ([])
unfolding classify_slice literal repeated
udevd_test = refl

socket_test :
    classify_slice resolvers (codes "/system.slice/systemd-journald-dev-log.socket")
    ≡ traversed (codes "systemd-journald-dev-log.socket")
unfolding classify_slice literal repeated
socket_test = refl

machine_test : classify_slice resolvers (codes "/machine.slice") ≡ unclassified
unfolding classify_slice literal repeated
machine_test = refl

podman_test :
    classify_slice resolvers (
      codes
        "/machine.slice/libpod-cdbcfe0c9ba72a9908bca0d50f438275178f5e94229ac54e2ea9bd71e70e4134.scope")
    ≡ total (codes "server-metrics") ([])
unfolding classify_slice literal repeated
podman_test = refl

supervisor_test :
    classify_slice resolvers (
      codes
        "/machine.slice/libpod-conmon-cdbcfe0c9ba72a9908bca0d50f438275178f5e94229ac54e2ea9bd71e70e4134.scope")
    ≡ total (codes "server-metrics/supervisor") ([])
unfolding classify_slice literal repeated
supervisor_test = refl

temporary_podman_test :
    classify_slice resolvers (
      codes
        "/machine.slice/libpod-dc9145bfa6eeb9f415dea90c2eaabbac6f35e844cfc71f25cf3c4567773a0d83.scope")
    ≡ total (codes "podman-containers") ([])
unfolding classify_slice literal repeated
temporary_podman_test = refl

temporary_supervisor_test :
    classify_slice resolvers (
      codes
        "/machine.slice/libpod-conmon-dc9145bfa6eeb9f415dea90c2eaabbac6f35e844cfc71f25cf3c4567773a0d83.scope")
    ≡ total (codes "podman-containers/supervisor") ([])
unfolding classify_slice literal repeated
temporary_supervisor_test = refl

users_test : classify_slice resolvers (codes "/user.slice") ≡ unclassified
unfolding classify_slice literal repeated
users_test = refl

user_test :
    classify_slice resolvers (codes "/user.slice/user-1000.slice")
    ≡ total (codes "dmitry/sessions") (codes "user@1000.service" ∷ [])
unfolding classify_slice literal repeated
user_test = refl

session_test :
    classify_slice resolvers (codes "/user.slice/user-1000.slice/user@1000.service")
    ≡ total (codes "dmitry") (codes "app.slice" ∷ codes "init.scope" ∷ [])
unfolding classify_slice literal repeated
session_test = refl

app_slice_test :
    classify_slice resolvers (codes "/user.slice/user-1000.slice/user@1000.service/app.slice")
    ≡ unclassified
unfolding classify_slice literal repeated
app_slice_test = refl

user_build_test :
    classify_slice resolvers
      (codes "/user.slice/user-1000.slice/user@1000.service/app.slice/buildah-buildah1525486166")
    ≡ total (codes "dmitry/podman-builder") ([])
unfolding classify_slice literal repeated
user_build_test = refl

user_local_build_test :
    classify_slice resolvers (
      codes
        "/user.slice/user-1000.slice/user@1000.service/app.slice/crun-buildah-buildah1059824916.scope")
    ≡ total (codes "dmitry/podman-builder") ([])
unfolding classify_slice literal repeated
user_local_build_test = refl

user_socket_test :
    classify_slice resolvers
      (codes "/user.slice/user-1000.slice/user@1000.service/app.slice/dbus.socket")
    ≡ traversed (codes "dmitry/dbus.socket")
unfolding classify_slice literal repeated
user_socket_test = refl

vm_slice_test :
    classify_slice resolvers
      (codes "/user.slice/user-1000.slice/user@1000.service/app.slice/app-vm.slice")
    ≡ unclassified
unfolding classify_slice literal repeated
vm_slice_test = refl

vm_test :
    classify_slice resolvers (
      codes "/user.slice/user-1000.slice/user@1000.service/app.slice/app-vm.slice/vm@linux.service")
    ≡ total (codes "dmitry/vm@linux") ([])
unfolding classify_slice literal repeated
vm_test = refl

ssh_agent_test :
    classify_slice resolvers
      (codes "/user.slice/user-1000.slice/user@1000.service/app.slice/ssh-agent.service")
    ≡ total (codes "dmitry/ssh-agent") ([])
unfolding classify_slice literal repeated
ssh_agent_test = refl

go_test :
    classify_slice resolvers (
      codes
        "/user.slice/user-1000.slice/user@1000.service/app.slice/snap.go.go-345c278e-7032-498e-8348-5c092e5d3623.scope")
    ≡ traversed (codes "dmitry/go")
unfolding classify_slice literal repeated
go_test = refl

user_snap_test :
    classify_slice resolvers (
      codes
        "/user.slice/user-1000.slice/user@1000.service/app.slice/snap.shadowsocks-rust.ssserver-6f2a6b45-86b0-43fc-944f-d367b51e6c2f.scope")
    ≡ traversed (codes "dmitry/ssserver")
unfolding classify_slice literal repeated
user_snap_test = refl

user_healthcheck_test :
    classify_slice resolvers (
      codes
        "/user.slice/user-1000.slice/user@1000.service/app.slice/5ad006cde140386bb880ddf7c8f1881e0446c2f9cd46a2ed446250b09072854e-6b72c8998348f9c4.service")
    ≡ total (codes "dmitry/podman-containers/healthcheck") ([])
unfolding classify_slice literal repeated
user_healthcheck_test = refl

user_init_test :
    classify_slice resolvers (codes "/user.slice/user-1000.slice/user@1000.service/init.scope")
    ≡ traversed (codes "dmitry/init")
unfolding classify_slice literal repeated
user_init_test = refl

classify_slice-unit_example :
    classify_slice resolvers (codes "/system.slice/nginx.service")
    ≡ ok (some (record { service = codes "nginx"; total_excluding = some [] }))
unfolding literal repeated find_submatch dbus_service is_digit
classify_slice-unit_example =
    classify_slice-unit resolvers (codes "nginx") (ground arith) (ground arith) refl refl refl
