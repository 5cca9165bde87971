-- ===== src/Lib.antt =====
-- The metrics exporter server-metrics: its log reader, its control groups, its firewall watcher, and the
-- parsers of kernel files.
--
-- The program runs one collector per subject. Each collector reads files or kernel interfaces when
-- Prometheus asks, and hands numbers over as metrics.
--   * internal/kernel reads /dev/kmsg all the time. One goroutine parses records and sends the kernel's
--     errors to a second one, which collects them into groups by time and classifies each group.
--   * internal/cgroups walks the control groups, and classifies each by its path as a service, for which
--     it may ask internal/users and internal/containers. For each service the CPU, the memory and the
--     input/output collector read the statistics of its group, and take those of its children away where
--     the group is recorded net of them. The groups may vanish meanwhile, which they report to one race
--     controller.
--   * internal/network reads the sets in which the firewall keeps rejected connections, decides which
--     addresses to ban, deletes the elements of those that were banned before, and finds the address
--     with the most forwarded connections.
--   * internal/slab and internal/meminfo parse /proc/slabinfo and /proc/meminfo, internal/zswap reads the
--     statistics of the compressed swap, and internal/kernelprocs the CPU time of the processes of the
--     root group.
--
-- Files and code:
--   * Base, Map, Text, Error: numbers with Go's int64, Go maps as lists of entries, the functions of
--     packages strings and strconv on lists of bytes, and errors as a data type.
--   * Util: internal/util/util.go (ReadFile, ParseFile) and formatting.go (FormatList).
--   * Regexp: anchored matching of package regexp, for the expressions that the program uses.
--   * Kernel.LogEntry, Kernel.Matchers, Kernel.Classifier, Kernel.Collector: internal/kernel/logentry.go,
--     matchers.go, classifier.go, collector.go. logProcessor is a step function on a state (group, timer,
--     counted errors); an event is an entry from the channel, or the timer with the uptime it fires at.
--   * Cgroups.Races, Group, Usage, Stat, Cpu, Memory: internal/cgroups/races.go, group.go, usage.go,
--     cgroupsutil/stat.go and namedstat.go, cpu/collector.go, memory/collector.go. Reading is a monad
--     whose state is the race controller and whose result is a value, a missing group, or an error.
--     Cgroups.Roots holds the loop over children that the collectors share.
--   * Cgroups.Classifier: internal/cgroups/classifier/classifier.go. ClassifySlice is classify_slice; its
--     cases, in their order, are classify_path, classify_nested and classify_by_parent. The resolvers
--     are the fields of its first argument.
--   * Cgroups.Io: internal/cgroups/io/collector.go and resolver.go.
--   * Cgroups.Observer: internal/cgroups/collector/collector.go. The walk is over any list of collectors
--     (the interface of internal/cgroups/collector.go); Cgroups.Observer.Collectors puts the three of the
--     program behind that interface, each with what it records.
--   * Resolvers: internal/containers and internal/users. The libraries of caches are a record of their
--     operations and of what the code relies on.
--   * Network.Scoring, Address, Rejects, Bans, Deletion, Collector, Forward: internal/network/scoring.go,
--     interfaces.go, and the parts of collector.go in the order of its phases. Network.Formatting is
--     ipStat.String of types.go.
--   * Slab, Meminfo, Zswap, Kernelprocs: internal/slab, internal/meminfo, internal/zswap/collector.go,
--     internal/kernelprocs/collector.go.
--   * Examples: the results at concrete inputs.
--
-- Loops are structural recursion. Four take fuel: the scan of `classify`, with the number of messages
-- left, and the batches of one set, with the number of its elements; each round of either uses up at
-- least one, so the fuel never ends first. The walk over the groups takes the depth of the tree that it
-- may enter. Printing a number takes more fuel than it has digits. Integers that Go holds in int64 are
-- wrapped around after each operation. The file system, the connection to the firewall, the clock and
-- the schedule of the two goroutines are parameters or events. One value of the file system holds the
-- files fixed, in the walk over the groups for the whole collection, in which the directory of the root
-- group is read by the walk and by each of its collectors; what a container service tells of a container
-- is fixed while it is in a cache. White space is that of ASCII. An IP address that Go keeps as a
-- text is its bytes in canonical form.
--
-- Not modelled: the conversion to floating point (zswap takes it as a parameter) and the metrics' output,
-- most of the log output, and debug counters; locks; the clients of Docker and Podman; the
-- checks of the sizes of nftables types; the list of the networks of the interfaces; the server and the
-- command line, which are input and output.
pub mod Base
pub mod Error
pub mod Text
pub mod Map
pub mod Util
pub mod Network
pub mod Regexp
pub mod Kernel
pub mod Cgroups
pub mod Slab
pub mod Meminfo
pub mod Zswap
pub mod Kernelprocs
pub mod Resolvers
pub mod Examples
