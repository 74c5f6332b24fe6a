-- ===== src/Lib.antt =====
-- CRI-T, a container runtime daemon for Kubernetes, as definitions and theorems.
--
-- The daemon answers the kubelet's requests for pods and containers. This library models the parts
-- that decide: the names that are taken, the containers that were made for a request that timed
-- out, the state of a container, how it is stopped, computations on its resources, devices and
-- environment, the tables of containers and pods, the requests that create, remove and list them,
-- and the manager of the CNI plugin.
--
--   * Registrar, internal/registrar/registrar.go: names and the keys that hold them. `Registrar` is
--     the struct with its two maps; Reserve, Release, Delete, GetNames, Get and GetAll are reserve,
--     release, delete_key, get_names, get and get_all. A handler reserves a name before it creates
--     a container or pod. Registrar/Indices has the lemmas on the two maps, Registrar/Invariant
--     and Registrar/Lookups what holds after any calls.
--   * ResourceStore, internal/resourcestore/resourcestore.go: a container or pod that is created
--     after its request was given up is put here for the next request, with a cleaner. Get, Put,
--     Delete, WatcherForResource and SetStageForResource are functions on `ResourceStore`; `sweep`
--     is one round of cleanupStaleResources under the lock and `reap` the cleanup after it. A
--     watcher is the number of its channel, and the store keeps what was sent.
--     ResourceStore/Cleaner is resourcecleaner.go, whose backoff, of k8s.io/apimachinery, is a
--     parameter that runs its function up to a number of steps.
--   * Container, internal/oci/container.go: `ContainerState` and `Container`, NewContainer,
--     FromDisk, SetInitPid and SetStartFailed. Container/Pid is pid, verifyPid, Living,
--     ProcessState and the start of StopContainer; Container/Refresh is UpdateContainerStatus of
--     internal/oci/runtime_oci.go. What the kernel, the disk and the OCI runtime answer are
--     arguments.
--   * Stop, internal/oci/container.go and internal/oci/runtime_oci.go: the methods under stopLock,
--     each one critical section. Stop/Machine is the step relation of any number of StopContainer
--     callers and the one goroutine of StopLoopForContainer; Stop/Deadline is its `select` loop on
--     int64 nanoseconds; Stop/ExecPids is KillExecPIDs.
--   * Irq, internal/runtimehandlerhooks/utils_linux.go: the IRQ affinity mask, whose CPUs are
--     turned on and off for a container. Strings are lists of bytes; encoding/hex and cpuset are
--     parameters.
--   * Workloads, pkg/config/workloads.go: the CPU resources that a workload gives to a container,
--     from the annotations of its pod. int64 and uint64 are bit patterns below 2 ^ 64. The JSON
--     decoder and cpuset are parameters. Workloads/Annotations is the filter of the annotations
--     that are not allowed, with its helper of pkg/config/config.go.
--   * MemoryStore, internal/memorystore: Add, Get, Delete, List, Size and First of the store of
--     values by ID that the tables of containers and pods are.
--   * Server, internal/lib/container_server.go and internal/lib/container_server_linux.go: the
--     tables of containers and pods, AddContainer to RemoveSandbox, and the count of pods of each
--     SELinux level. selinux.NewContext is a parameter.
--   * LinuxResources, internal/lib/container_server.go and internal/oci/container.go:
--     UpdateContainerLinuxResources and SetResources.
--   * Listings, server/container_list.go and server/sandbox_list.go: ListContainers and
--     ListPodSandbox with their filters. The index of short IDs and the matching of label selectors
--     are parameters.
--   * Handlers, server/container_create.go, container_start.go, container_stop.go,
--     container_remove.go, sandbox_run_linux.go, sandbox_stop.go, sandbox_stop_linux.go and
--     sandbox_remove.go: the requests over all of these parts. `World` is the state that they share:
--     the registrars of names, the resource store, the tables of the container server, the indices
--     of IDs, and the IDs in the storage and in the runtime. Handlers/Index is the interface of
--     truncindex, of containers/storage, with its laws, and Handlers/Exact a list that satisfies
--     them. Handlers/Create is CreateContainer and Handlers/Run, with Handlers/Run/Env for the
--     request and its undo lists, is RunPodSandbox, each with its cleaner, as the list of the
--     functions that it adds, and Handlers/Cleaner is what such a list
--     undoes; Handlers/Remove is StartContainer, StopContainer, RemoveContainer and
--     removeContainerInPod, and Handlers/Remove/Pod is StopPodSandbox and RemovePodSandbox. What
--     the runtime, the storage, the hooks, NRI, networkStart, networkStop and the file system answer
--     is an environment, one for each request; a cleaner's function that fails for good is taken to
--     change nothing. An infra container is kept or spoofed, and the runtime does nothing for a
--     spoofed one; the sandbox cgroup that is made then is not modelled. A request is one step: what another request does between two of its calls is
--     not modelled.
--   * Devices, internal/config/device/device_linux.go: the devices of the configuration and of an
--     annotation. DeviceFromPath of runc is a parameter.
--   * Sysctls, pkg/config/sysctl.go: the sysctls of the configuration, parsed by Sysctls and checked by
--     Validate. strings.TrimSpace is a parameter, the order of the map of prefixes an argument.
--   * CpuSettings, internal/runtimehandlerhooks/high_performance_hooks_linux.go: the resume latency and
--     the frequency governor of CPUs, doSetCPUPMQOSResumeLatency and doSetCPUFreqGovernor, as one
--     function on the files of the kernel and the saved files. The write of a saved value that fails
--     can leave a part of it; any other operation that fails changes nothing.
--   * LoadBalancing, the same file: setCPULoadBalancingV2 and addOrRemoveCpusetFromManagers on the
--     cgroups from the root to a container, each with its desired state and its files, and the
--     revert after a failure. cpuset of Kubernetes is a parameter with its laws.
--   * HighPerformance, internal/runtimehandlerhooks/: GetRuntimeHandlerHooks of
--     runtime_handler_hooks_linux.go, and of the same file as above PreStart and PreStop as lists of
--     actions, of which the first failure ends the run, convertAnnotationToLatency, and in
--     HighPerformance/Quotas the quotas of a pod and a container with shared CPUs.
--   * CniManager, internal/config/cnimgr/cnimgr.go: the poll until the plugin is ready, the
--     watchers with their channels of capacity 1, Shutdown and GC.
--   * CgroupStats, internal/config/cgmgr/stats_linux.go: the memory statistics, on uint64.
--   * ServerUtils, server/utils.go: mergeEnvs and getSourceMount.
--
-- Prelude has what the modules share: Boolean tests and case splits, lists over the native numbers,
-- decidable equality as a class, results, int64, Go's maps as association lists, whose order
-- stands for the order of `range`, and strings as lists of bytes where their letters matter.
--
-- A function that a mutex guards is one step. A Go panic is `none` or a constructor of its own.
-- Loops are structural recursion, but for two on fuel: the groups of a mask, with its length, which
-- is proved enough, and the rounds of KillExecPIDs, which ends only if the kernel lets it: the
-- number of rounds in which a signal may be refused is a hypothesis there.
--
-- Not modelled: the handlers of server/ for exec, images and events; the loading of
-- containers and pods from disk; the configuration but for what is named above; the managers of
-- cgroups, NRI, storage and metrics, which mostly call the kernel, the file system or other
-- programs; internal/hostport and internal/iptables, copies of Kubernetes code, and utils/errdefs,
-- a copy of containerd's; the lines that log and trace; the contexts of requests but for whether
-- one has ended; and in the registrar the sharing of the slices that it returns.
mod Prelude
pub mod Registrar
pub mod ResourceStore
pub mod Container
pub mod Stop
pub mod Irq
pub mod Workloads
pub mod MemoryStore
pub mod Server
pub mod Listings
pub mod LinuxResources
pub mod Handlers
pub mod Devices
pub mod Sysctls
pub mod CpuSettings
pub mod CniManager
pub mod CgroupStats
pub mod ServerUtils
pub mod LoadBalancing
pub mod HighPerformance
