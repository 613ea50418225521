-- ===== src/Lib.antt =====
-- Verification library of the DevPod control plane: a gateway for ssh logins, a controller that
-- renders each DevPod into Kubernetes objects, a supervisor in its container, and a web interface.
--
-- The user comes to the gateway with a login "owner+pod" and a key. The gateway finds the DevPod,
-- asks its sources of identity for the user's keys (User objects, an LDAP directory behind a cache)
-- and checks that the user may enter and that the DevPod runs. The controller renders the Pod in which
-- the supervisor runs the user's programs. The web interface creates, wakes and deletes DevPods for
-- users within their quota.
--
--   Prelude             shared helpers: byte texts, maps, lists, Boolean tests on native numbers
--   Api                 api/v1alpha1 and what the code uses of the Kubernetes types
--   Gateway.LoginName   internal/gateway/login_name.go
--   Gateway.LdapEscape  internal/gateway/ldap_escape.go
--   Gateway.Identity    internal/gateway/identity.go
--   Gateway.Auth        internal/gateway/auth.go: authenticate is Authenticate, run_chain its loop over
--                       the sources, finalize its last checks
--   Gateway.LdapCache   internal/gateway/ldap.go, Resolve: resolve, with the cache as a map that is
--                       passed along and the time of the call as an argument
--   Gateway.LdapConn    internal/gateway/ldap.go, liveLookup, acquireConn and resetConn
--   Gateway.LdapWarn    internal/gateway/ldap.go, warnRateLimited and roundUpSeconds
--   Render.Naming       internal/render/render.go
--   Render.Pod          internal/render/pod.go: render_pod is Pod
--   Render.Objects      internal/render/{service,pvc,secret}.go
--   Render.Network      internal/render/networkpolicy.go
--   Render.Snapshots    internal/render/snapshot.go
--   Webui.Quota         internal/webui/quota.go
--   Webui.Names         internal/webui/mapping.go
--   Webui.Kore          internal/webui/kore.go
--   Webui.Template      internal/webui/template_apply.go
--   Webui.Sessions      internal/webui/session.go
--   Controllers.Users   internal/controllers/user_controller.go: reconcile_user is Reconcile up to its
--                       write
--   Controllers.Backoff internal/controllers/devpod_controller.go, failureBackoff
--   Controllers.Cluster the API server as a parameter, and a pass of a controller over it: a step gives a
--                       value or an error, and the world and the log of writes as it leaves them
--   Controllers.DevPods internal/controllers/devpod_controller.go: reconcile is Reconcile, apply_all
--                       applyAll, update_status updateStatus
--   Controllers.Snapshots
--                       internal/controllers/snapshot_controller.go: reconcile_snapshot is Reconcile
--   Webui.Requests      internal/webui/api_devpods.go, buildDevPod: build_devpod
--   Webui.DevPods       internal/webui/api_devpods.go: create_devpod, patch_devpod and delete_devpod are
--                       the handlers up to the write, which they return
--   Webui.Accounts      internal/webui/password.go and api_admin_users.go: logins, passwords and Users
--   Webui.Topology      internal/webui/kore_topology.go
--   Supervisor.Reaper   cmd/supervisor/main.go, waitForChildren: wait_for_children, over the list of what
--                       wait4 returns
--   Supervisor.Passwd, Supervisor.Shell, Supervisor.SetEnv
--                       cmd/supervisor/shell.go
--   Supervisor.Startup  cmd/supervisor/main.go: what main prepares before it starts sshd
--
-- A Go string is the list of its bytes, a map an association list, a quantity a signed count of
-- billionths, a time a number of nanoseconds. A read through the Kubernetes API is an argument: found, not
-- found or failed. The ssh library, the hash of a port, JSON and YAML, the network and
-- the finalizers of controller-runtime are parameters too.
-- All loops are structural recursion. Two are bounded by a number: itoa prints at most ten digits,
-- enough for 32 bits, and failureBackoff goes at most as many rounds as its own condition allows.
--
-- Not modelled: the forwarding of sessions, the start of processes and the bootstrap command of the
-- supervisor, cookies and OAuth, the watch streams, lists and the deletion by an admin, and all logging and
-- metrics.
-- The settings of sshd are read back by a model of OpenSSH's argv_split, which the repository does not hold;
-- that reader, and the laws of bcrypt, are assumptions on other programs.
-- In the cache of the directory, callers that wait for a lookup of another caller share its result;
-- they are not steps of their own.
pub mod Prelude
pub mod Api
pub mod Gateway
pub mod Render
pub mod Webui
pub mod Controllers
pub mod Supervisor
