-- ===== src/Lib.antt =====
-- k8s-lb-controller gives Kubernetes Services of type LoadBalancer an external IPv4 address from a
-- pool and keeps an HAProxy dataplane in step with them. This library models the controller's and
-- the dataplane's logic and proves what it guarantees.
--
-- The program's parts, how they interact, and the files that model them:
--
-- - internal/controller, in Controller: Reconcile.antt is ServiceReconciler.Reconcile with every
--   path that it takes, over an API client and a provider, Filter.antt the selection of Services,
--   the finalizer and the predicates on events. Laws.antt says what Reconcile relies on of the
--   client and the provider; Inversion, Assigning, Reads, Sharing, Isolation, Sweep, Deleting and
--   Returning hold the proofs.
-- - internal/ipam, in Ipam: Pool.antt is ParsePool, Allocator.antt is Allocate, which Reconcile
--   calls, with the collection of the used addresses from the cluster's Services. A map from
--   addresses is an association list.
-- - internal/backends, in Backends: Discover, which finds the backends of each port.
-- - internal/status, in Status: the comparison and the update of a Service's published address.
-- - internal/provider, in Provider: the provider-neutral Service, its reference and Equal;
--   Mock.antt is the provider in memory, Haproxy.antt the one that writes the configuration file
--   and Api.antt that of internal/provider/dataplaneapi, which calls the dataplane.
--   Api/Remote.antt puts the last over the model of the server that it calls.
-- - internal/dataplane, in Dataplane: Http.antt is the HTTP interface, with the routes of its mux
--   in Http/Routing.antt, which calls the engine of Engine.antt; Settings.antt is config.go;
--   Store.antt is the engine's desired state, ExternalIps.antt the addresses that it asks for,
--   Render.antt the HAProxy configuration with its validation and its identifiers, and Host.antt
--   the two interfaces that the engine calls with what it relies on. Apply.antt implements the
--   one, IpAttach the other, with Netlink.antt over a client of the netlink library and Exec.antt
--   over the ip command (Manager.antt is what the two share), and Machine.antt puts the two
--   together as cmd/dataplane does; Machine/Repairing.antt has the engine over both.
-- - internal/config, in Configuration.antt, with the readers of variables, which
--   internal/dataplane declares again, in Environment.antt, LoadDotEnv in Environment/DotEnv.antt
--   and the checks on a base URL in Urls.antt.
-- - internal/metrics, in Metrics.antt: the metrics and the provider that counts the calls of
--   another.
-- - cmd/main.go and cmd/dataplane/main.go, in Command: Controller.antt and Dataplane.antt are what
--   the two programs make of their settings before they serve, Kubeconfig.antt the diagnosis of a
--   kubeconfig without a current context, and Levels.antt the log levels.
-- - Kube.antt has the fields of the Kubernetes objects that the code reads, Netip.antt what the
--   code uses of net/netip for IPv4, and Prelude the shared types: Boolean tests, results, orders,
--   sorting, association lists, texts and integers.
--
-- A method that changes state and may fail is a function from the state to a result and a new
-- state, so that what was done before an error stays done. The engine and the providers hold a
-- mutex in each method: a run of one is a sequence of calls. A function with several early returns
-- is a chain of functions, one for each call that can fail. Every loop goes over a finite list and
-- is structural recursion, so there is no fuel. An error keeps what the code puts into it in a
-- constructor of a sum; its text is not modelled. A nil pointer, where the program never passes
-- one, is not modelled.
--
-- Code that is not the repository's is an argument: the API client of controller-runtime and what
-- the Kubernetes libraries do on objects (Helpers in Kube.antt), the netlink library,
-- url.PathUnescape, url.Parse and URL.String, time.ParseDuration, netip.ParsePrefix, the JSON
-- encoder and decoder, the HTTP transport and the status with which a ServeMux redirects, the
-- loading rules of client-go, os.Stat and filepath.Clean. The environment is a function from names
-- to values, and a .env file is the map that godotenv.Read makes of it. What a file system call or
-- a command answers in a run of the applier is an argument too (Faults), so a theorem about a run
-- holds for every pattern of failures. The laws of the API client say that nobody else writes
-- during a run. Its Gets and Lists may answer from a cache that lags behind what the server holds:
-- where a result needs a read to be up to date, it says so, by IsCurrent of Controller/Laws.antt,
-- for each state in which a run reads. The laws of the netlink client are for the prefix length
-- 32, since on a shorter one Linux may remove an address together with another of its subnet. The
-- platform that the program is built for is an argument: only on Linux is there a netlink client.
--
-- sort.Slice and slices.SortFunc are insertion sort. Every order sorted by is total on the keys,
-- and elements with equal keys keep their places, as Go's sort does up to twelve elements; on
-- more, Go leaves the places of equal keys open. int32 values are only compared, printed and
-- copied, so no operation wraps.
--
-- The histories of Dataplane/Engine/Histories.antt are lists of calls of the engine, each of which
-- may fail at any place; Dataplane/Engine/Total.antt and Controller/Returning assume that nothing
-- fails. The results about the engine are over a manager that keeps the laws of the addresses, as
-- the netlink manager does. The manager that attaches nothing, which the engine has when the
-- attachment is disabled, does not keep them, so they do not speak of that case.
--
-- Not modelled: logging with what only log lines use, as redactURLForLog, contexts and their
-- cancellation, timeouts, the text of errors, the registration of metrics and controllers with
-- third-party libraries, and the servers and the signals of the two commands.
pub mod Prelude
pub mod Netip
pub mod Kube
pub mod Provider
pub mod Ipam
pub mod Dataplane
pub mod Status
pub mod Backends
pub mod Controller
pub mod Environment
pub mod Urls
pub mod Configuration
pub mod Command
pub mod Metrics
