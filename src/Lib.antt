-- ===== src/Lib.antt =====
-- slurm-tracer: a daemon that collects kernel events on the nodes of a Slurm cluster, ties them to jobs,
-- and streams them as records.
--
-- The program's parts, and the files that model them. Paths of the source are from the repository's root.
--
-- In the kernel (BpfPrograms.antt: core/attribution/cgroup_watcher.bpf.c and the .bpf.c files of
-- src/probes) a program of each tracepoint writes an event into a ring buffer. BpfProbe.antt is the life of
-- the loaded programs (src/core/probe/bpf_probe.h). A probe (src/probes, Probes.antt) reads the events: its
-- `on_event` drops short ones and has `translate` fill a Record (src/core/record, Record.antt and below: the
-- record and its JSON document). The record goes to the Pipeline (src/core/pipeline, Pipeline.antt and
-- below), which enriches it (wall clock, user, and the job), collects a batch and writes it to every sink.
-- BpfPrograms/EndToEnd.antt follows an event from the kernel to the record.
--
-- Jobs are found by the CgroupResolver (src/core/attribution/attribution.cpp). Attribution/Path.antt is
-- `parse_cgroup_path` and its helpers, Attribution/Resolver.antt the map from cgroup ids to entries with
-- `on_created`, `on_removed`, `expire` and `resolve`, Attribution/Resolver/Bootstrap.antt the scan at
-- start, Attribution/Root.antt `discover_cgroup_root`, and Attribution/Watcher.antt the CgroupWatcher and
-- its `translate`, which feed the resolver. Clock.antt is src/core/utilities/clock.cpp, Events.antt
-- src/core/events.h.
--
-- The configuration is src/core/config: Config.antt is config.cpp (typed values, and the difference that
-- a reload applies), Config/File.antt is config_file.cpp.
--
-- The Daemon (src/core/daemon.cpp) owns all of these: Daemon.antt adds and removes probes and sinks,
-- Daemon/Start.antt is `start` with `start_cgroup_watcher`, Daemon/Reload.antt `reload_config`, and
-- Daemon/Run.antt `run`, whose rounds are a list that ends at the signal to stop. Daemon/Running.antt views
-- the daemon as a map from ids to the instances that run; what a reload does is stated on that view.
-- Daemon/Mapped.antt relates it to the plugins that the loader holds, and orders the calls that create and
-- destroy instances and open and close plugins.
-- The EventLoop (src/core/event_loop.cpp, EventLoop.antt) polls the ring buffers of all probes.
-- The PluginLoader and its Registry (src/core/plugin_loader.cpp, src/core/registry.h, PluginLoader.antt)
-- load the probes and sinks from shared objects. Main.antt and Main/Program.antt are src/core/main.cpp.
--
-- The sinks are src/sinks. Sinks/Queue.antt is the bounded queue between the pipeline's thread and a worker
-- thread, which StdoutJsonSink and HttpSink have alike: `write` is a function, and the threads are the
-- steps of a relation, one for each critical section. Sinks/Stdout.antt, Sinks/Http/Create.antt and
-- Sinks/Http/Endpoint.antt are how the two are configured; Sinks/Null.antt is NullSink. HttpSink's worker
-- posts a batch: Sinks/Http/Socket.antt is the connection, `write_all` and the loops over `recv`,
-- Sinks/Http/Response.antt what is read off a response's head, and Sinks/Http/Client.antt is `post` and the
-- retry of `run`.
--
-- How the source is rendered. A method takes the object's state and returns it, with the calls that it
-- makes of other objects as values. A w-bit number keeps its wrap-around, by `% 2 ^ w` (Words.antt). A byte
-- is a number, a string a list of bytes (Text.antt; the functions of libc on them are Text/Scan.antt), a map
-- a list in the order of its keys (Dict.antt). The file system, the clocks, the passwd database,
-- nlohmann::json's parser and printer, libbpf, the dynamic linker and the kernel's helpers are parameters;
-- the results of `send` and `recv` are lists, which the loops consume, and a loop that asks for more than
-- there is gives `none`. Of bpf_probe_read_kernel_str a hypothesis states what is documented. Undefined
-- behaviour (`pop_front` on an empty deque) is `none`, and so are an exception that leaves a function and the
-- SIGPIPE that ends the process. What may throw is the JSON parser, on what is no parse_error, the JSON printer,
-- and the lookups of a reload.
--
-- Fuel. `split_loop` takes one round for each byte at most, and `split_path` gives it one more than the
-- path is long. The scan at start (`walk`) takes as many rounds as the tree has directories, and one; a
-- tree is finite where its directories can be weighed so that each outweighs its children together.
--
-- Not modelled: log messages with the report at shutdown, what the destructors of the daemon's members do
-- after its own, the handlers that set the flags of the signals, the usage text, exceptions that a plugin's
-- factory or a probe throws, and the overflow of durations from 2 ^ 63 milliseconds on.
pub mod Common
pub mod Text
pub mod Dict
pub mod Words
pub mod BpfPrograms
pub mod BpfProbe
pub mod Main
pub mod Clock
pub mod Events
pub mod Attribution
pub mod Record
pub mod PluginLoader
pub mod Probes
pub mod Pipeline
pub mod Config
pub mod Daemon
pub mod EventLoop
pub mod Sinks
