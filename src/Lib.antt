-- ===== src/Lib.antt =====
-- A model of the NETCON problem management subsystem, with the theorems that make it correct.
--
-- The program keeps training problems available to participants. A Problem asks for a number of
-- assignable ProblemEnvironments; the controller manager creates and deletes them, elects a Worker
-- for each and reports whether it is ready; nclet, on the Worker, deploys it; the gateway hands it
-- out. The parts share nothing but the Kubernetes API server: each reads and writes the resources.
--
-- Prelude                 shared names, tests, lists, results; Prelude.Int has the signed integers
-- Api                     api/v1alpha1/*_types.go: the resources
-- Condition               pkg/util/condition.go: reading and writing status conditions
-- Strings                 strings.Split and Join; below it path.Clean, Join, Dir and Base, the order of
--                         strings, and decimal digits
-- Kube                    the Kubernetes client and the event recorder, as a parameter
-- Host                    the machine of a Worker, as a parameter: files, commands, docker; its laws
-- Clab                    pkg/containerlab: the topology and the client of containerlab
-- Webhook                 api/v1alpha1/problemenvironment_webhook.go: admission of updates
-- Crypto                  pkg/crypto/password.go: passwords
-- ControllerManager       controllers/controller-manager:
--   Election              electWorker and electWorkerFromCandidates
--   Environments          problemenvironment_controller.go: Reconcile and what it calls
--   Problems              problem_controller.go: Reconcile and updateStatus
--   Workers               worker_controller.go: monitorWorkerHealth
--   Metrics               metrics_exporter.go: collect
-- Gateway                 controllers/gateway: usecases.go, errors.go, types.go and http.go
-- Nclet                   controllers/nclet:
--   Environments          problemenvironment_controller.go and drivers/interface.go; the contract of a
--                         driver is in Environments.Instances
--   Drivers               drivers/containerlab.go and drivers/noop.go
--   Ssh                   ssh_server.go: parseUser, handlePasswordAuthentication and handle; Ssh.Server
--                         has Start, its handlers, the host key, and the counters of metrics.go
--   Heartbeat             heartbeat.go: the usage figures, the labels, the lease, the status report;
--                         Heartbeat.Loop has Start and its loop
-- AccessHelper            cmd/access-helper: the menu of the nodes, and the ways into a node; Ssh has the
--                         SSH session of ssh.go and term.go
-- Plugin                  pkg/kubectl-netcon/cmd: the commands that change a resource, ssh, the deploy
--                         log and the lists
-- DeployLog               pkg/kubectl-netcon/deploylog: the parser and the printer
-- Printers                pkg/printers: the tables of environments and workers
-- Startup                 cmd/controller-manager, cmd/gateway and cmd/nclet: what main puts under the
--                         manager, and what nclet makes of its flags
-- Lifecycle               one ProblemEnvironment under all these actors, as a step relation; in
--                         Lifecycle.Machine together with the machine of its nclet
-- Samples                 concrete objects, a small API server and a machine, for the witnesses
--
-- Functions keep the source's names in snake case. A handler is a function on `World C`: `C` is
-- whatever the API server and the other actors are, and every call of the client takes it to an
-- answer and a new `C`, so that a theorem which assumes nothing of the client holds for every
-- server and every interference between two calls. A World also keeps the events, the requests that
-- the program has sent and the commands given to the driver, newest first: the code has no such
-- lists, and the theorems speak of them. A Go error is a value of `Result`.
--
-- Not modelled: log lines and traces; the parsing of flags; the managers, the HTTP server and the SSH
-- library that call the handlers, and the tickers, whose ticks come as a list; reads from a cache that
-- lags behind the server, in Lifecycle, where a step starts from the stored object; the copying of
-- bytes between terminals, and the changes of the window size in a session; the typed client of
-- pkg/clientset, which only builds requests, and the schemes and loggers of the processes; float64,
-- `encoding/json`, YAML, shlex, docker, the finalizer functions, the label selector library,
-- `SetControllerReference`, `CreateOrUpdate` and the random sources, which are parameters; times are
-- whole seconds. Loops are recursion on the list or on the number of rounds; only the menu of
-- access-helper has fuel, one more than the lines that it reads, and the printing of a number n has
-- n + 1 for its digits, each with a theorem that this is enough. What access-helper reads is a finite
-- list, after which stdin is at its end, or fails for ever, where the menu does not end either. Of a
-- topology only what the program reads or writes is told apart.
pub mod DeployLog
pub mod Printers
pub mod Strings
pub mod Prelude
pub mod Api
pub mod Condition
pub mod Kube
pub mod Samples
pub mod Startup
pub mod Webhook
pub mod Crypto
pub mod ControllerManager
pub mod Gateway
pub mod Nclet
pub mod Plugin
pub mod Lifecycle
pub mod Host
pub mod Clab
pub mod AccessHelper
