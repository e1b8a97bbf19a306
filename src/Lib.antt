-- ===== src/Lib.antt =====
-- Podman Swarm: an agent that runs on every node, schedules containers, and finds services.
--
-- The program's parts and how they interact. The agent (cmd/agent) reads its configuration
-- (internal/config), makes one of each of the parts below, and serves an HTTP interface
-- (internal/api) that a middleware guards with API tokens (internal/security). The handlers run
-- containers by a client of podman (internal/podman) and keep what is deployed in the storage
-- (internal/storage), which writes it to disk and exchanges it with the other nodes, and register
-- the pods of services with the discovery (internal/discovery), which broadcasts each
-- registration. The nodes know each other by the cluster (internal/cluster), which carries the
-- messages, encrypted; the scheduler (internal/scheduler) chooses a node for a pod, and the
-- ingress controller (internal/ingress) sends requests from outside to the services' endpoints.
-- The DNS server (internal/dns) answers queries for the cluster's names from the discovery, and
-- forwards all others to upstream servers, under a whitelist.
--
-- Which file models what:
--   Types: internal/types/types.go. Kube: the records of the Kubernetes libraries that it uses.
--   Storage: internal/storage/storage.go; `Storage` is the record of the four tables and the time
--     of the last modification, `Disk` the files of the data directory, and every method that
--     writes returns an `Outcome` with both and its error. Storage/Commands: a history of the
--     methods, what it does to the tables (Refinement, Invariant), and what a restart finds
--     (Storage/Durable).
--   Storage/Merge: MergeState and internal/storage/sync.go, with the laws of a merge (Laws) and
--     the exchange between two nodes (Gossip).
--   Security/ApiTokens, Security/JoinTokens, Security/Encryption: internal/security/auth.go,
--     token.go and encryption.go. Api/Middleware: internal/api/middleware.go.
--   Discovery: internal/discovery/discovery.go; Discovery/Messages: its messages between nodes,
--     and what a node does with those of another (Peers).
--   Dns: internal/dns/dns.go; Dns/Names: parseServiceName, parseSRVName and isClusterDomainQuery;
--     Dns/Hosts: the whitelist; Dns/Forward: forwardQuery, validateCNAMERecords and
--     extractCNAMETargets; Dns/Cluster: handleDNS, handleClusterQuery, handleAQuery and
--     handleSRVQuery; Dns/Messages: what these use of the library miekg/dns.
--   Cluster: internal/cluster/cluster.go; the table of nodes (Membership), messages (Messages),
--     the leader (Leader) and the start of a node with a join token (Admission).
--   Scheduler: internal/scheduler/scheduler.go; where pods go (Placement) and selectors (Labels).
--   Ingress: internal/ingress/ingress.go; Ingress/Lock: the mutex, and Ingress/Free: changes of
--     the rules when nobody has it; which rule answers a request (Routes), the locks it takes
--     (Hanging) and the proxies that are kept (Proxies).
--   Parser: internal/parser/parser.go; Parser/Documents: the documents of a manifest.
--   Podman: internal/podman/podman.go; the specification of a container (Ports) and the states of
--     containers; Podman/Logs: combinedLogReader, over what `select` takes from its channels, with
--     a driver `read_all` that reads until the end (Drain).
--   Config: internal/config/config.go; the lists of addresses (Lists).
--   Security/Tls: internal/security/tls.go; what a loaded configuration checks (Verification).
--   Api/State: what the handlers of internal/api/api.go for manifests read and change, as one
--     record `State`. Api/Deployments: applyDeployment, and DeleteManifest for deployments (Table,
--     Leaks); Api/Services and Api/Ingresses: the same for services (Endpoints; Runs and
--     Withdrawals, how far they get; Resolution, which ties them to the DNS server) and ingresses; Api/Manifests: ApplyManifest and
--     DeleteManifest as a whole (Failures, Deletion). Api/Start: NewAPI and loadStateFromStorage
--     (Caches). Api/Listings: the handlers that read (Lookups). Api/Server: SetupRoutes, and a
--     request from the middleware to the answer of its handler, with the tokens and the whitelist
--     as part of the state (Revocation).
--   Api/Recovery: internal/api/recovery.go; what it makes again and what fails (Counts).
--   Api/Whitelist, Api/Tokens: the handlers for the DNS whitelist and for tokens.
--   Agent: cmd/agent/main.go; the encryption key (Keys), the handler of messages, which ties the
--     cluster to the discovery and the storage (Messages), and the tokens at the start (Tokens).
--     Agent/Start: main, which makes one component after the other, with its fatal errors, and
--     what it finds when it is started again (Restart). Agent/Steps: a running agent as a step
--     relation, each step a whole request, message, recovery or health check, and what holds after
--     any of them (Safety, over Api/Sound, Storage/Merge/Validity and Discovery/Messages/Shape).
--   Base: texts, maps, lists and results that the parts share.
--
-- How the code is rendered. Strings are lists of bytes. A Go map is an association list, whose
-- order stands for the order of `range`; statements hold for every list, hence for every order. A
-- pointer that may be nil is an Option, a method that may fail returns an error beside or instead
-- of its result, and a method that changes its receiver returns the new one. Times are natural
-- numbers, and the clock, random bytes and the outcomes of disk operations are arguments of what
-- reads them. Each method holds its lock throughout, so a history is a sequence of whole calls;
-- where a method takes a lock twice (Ingress), the mutex is part of the state. Logging is left
-- out.
-- The JSON codecs, the ciphers and hashes, memberlist, and the DNS library with the upstream
-- servers are parameters; what a theorem needs of them is among its hypotheses. So are the
-- matching of paths and the binding of bodies by gin, the bindings of podman, the files and
-- certificates of TLS, and what the flags of the command line hold. Broadcast names no node to
-- memberlist, whose sending is a function of an optional node and the bytes, and returns, fails or
-- panics; what a registration or a deregistration then leaves is part of the model, with a function
-- for what each broadcast does. A panic ends the agent in the handler of messages, in the recovery
-- and at the start; in an HTTP handler, gin answers with status 500. Loops are
-- recursion on the list they run over or on the number of replicas, so fuel is needed in two
-- places only: in `decimal`, where one more than the number is enough, and in `read_all`, where
-- one more than a read for each byte of the log and two for each line is enough.
--
-- Not modelled: the tickers StartPeriodicBackup, StartPeriodicSync and StartStateRecovery and the
-- hourly clean-up, the listeners of the DNS server, the ingress and the HTTP interface, and the
-- signals, which only call or stop what is modelled; the methods that only pass on to memberlist
-- or to podman; and examples/service-client.go, which is no part of the agent.
pub mod Base
pub mod Kube
pub mod Types
pub mod Storage
pub mod Security
pub mod Discovery
pub mod Dns
pub mod Api
pub mod Cluster
pub mod Scheduler
pub mod Ingress
pub mod Parser
pub mod Podman
pub mod Config
pub mod Agent
