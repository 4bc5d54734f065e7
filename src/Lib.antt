-- ===== src/Lib.antt =====
-- RMS-Gate is a plugin of the Minecraft proxy Gate. It balances players over the backends of a
-- server, checks the backends' health, remembers latencies by the time of day, starts and stops
-- instances on demand, and lets players and their commands through by a whitelist and a table of
-- permissions.
--
-- The parts, and the files that model them:
--   * Base and its children: shared names, lists, integers, 32-bit words, maps keyed by strings.
--   * Float64: Go's float64 as a record of operations, with the laws that the proofs on scores use;
--     Float64.Fixed is an arithmetic that has them.
--   * LoadBalancer.Backend: internal/loadbalancer/backend.go. One `Backend`, an operation for each
--     method that changes it; Backend.Metrics has the statistics and scores.
--   * LoadBalancer.History: internal/loadbalancer/history.go. The cache of statistics:
--     `record_sample` is Record, `load_row` the body of the loop of loadFromDB; Saving has
--     savePeriodStats, which reads the statistics and commits its row later, and NewHistoryManager
--     over a database; Samples says what a slot counts.
--   * LoadBalancer.Strategy: internal/loadbalancer/strategy.go. `select` is the Select of all five
--     strategies, `after_select` what a call leaves in a strategy.
--   * LoadBalancer.Server: internal/loadbalancer/server_info.go. `dial_select` and `dial_finish` are
--     Dial before and after it waits for the network, `close` is trackedConn.Close; Overlap has the
--     steps of many dials, closes, checks and switches in any order.
--   * LoadBalancer.HealthCheck: internal/loadbalancer/loadbalancer.go, checkAllBackends for one
--     backend; Rounds has the whole of it and healthCheckLoop, which starts again after a panic,
--     Pinged the MCPing of a backend.
--   * LoadBalancer.Registry: internal/loadbalancer/loadbalancer.go, the table of servers.
--   * Minecraft: internal/minecraft/ping.go. VarInt has writeVarInt and readVarInt, Packet the
--     packets and MCPingConn, Ping has MCPing and MCPingAddrString.
--   * DynamicServer: internal/dynamicserver/manager.go. Shutdown timers, protection periods and the
--     idle check. Schedule and Idle, with its rounds, take the calls whole; Races takes them lock by
--     lock. Startup has waitForServerReady and what it calls, Starting has EnsureServerRunning by
--     many callers at once.
--   * Permission: internal/permission/manager.go. `get_permission_level` is GetPermissionLevel with
--     the cache that it leaves, `can_execute` is CanExecute.
--   * Whitelist: internal/whitelist/checker.go. `check` is Check.
--   * McsManager: internal/mcsmanager/client.go. `start_instance`, `stop_instance` and
--     `get_instance_status`, over a service that answers GET requests.
--   * Config: internal/config/config.go. The records of the file, `load_config` and `save_config`.
--   * Plugin: main.go. Setup has init and convertLoadBalancerConfig, Handlers the handlers of events,
--     Commands those of `/dserver` and `/lb`, Routes the trees that registerCommands builds, with
--     the type of each argument, Durations parseTimeString and formatDuration.
--
-- How they interact: a server chooses a backend by its strategy, which reads the backends and the
-- history; a dial changes the chosen backend, as the health check does, which also writes the
-- history. The health check pings through the Minecraft exchange; its model takes the outcome of
-- a ping as an argument, which HealthCheck.Pinged joins to the exchange. The plugin reads the
-- file, builds the other parts from its sections, and asks them in its handlers: the whitelist at
-- a login, the dynamic servers and the status service before a connection, the permissions before
-- a command. The commands act on the dynamic servers and on the load balancer, and show the
-- scores that the strategy computes.
--
-- State is passed explicitly. A pointer to a backend is its position in the server's list. Where
-- the code waits (a dial, a ping, the question for an instance's status) or starts a goroutine an
-- operation is split in two, and other calls may run between; from one wait to the next a call is
-- taken as one step. In DynamicServer.Schedule and Idle so are arming a timer with its entry in
-- the map, and the function of a timer that fires. DynamicServer.Races splits them where the code
-- takes and leaves the lock: there a timer may fire before it is entered, and a function that has
-- started may wait for the lock. One order is left out of its steps, a function that gets the
-- lock once the map has a later timer of its server, since it deletes that one's entry;
-- Races.Orphans shows this. In Saving a row is not committed before one of the same slot that was
-- read earlier, since the table would keep the older one. A round of the health check in
-- HealthCheck.Rounds and one of the idle check in Idle run with no other call between their
-- steps. The clock, the random source, the network, the proxy, the resolver, the database, the
-- HTTP services, JSON, the disk, ToLower and which texts the command library reads as an argument
-- are arguments. `none` is a run-time panic, or, in Minecraft, a writer that does not end; where
-- Go returns an error it is `none` too, and the comments say so.
--
-- Bounds and fuel: int32 counters are patterns below 2 ^ 32 and wrap; round-robin's counter wraps
-- at 2 ^ 64; sums of latencies wrap at 2 ^ 64. `int` fields are unbounded integers, converted to
-- int32 where the code does so; durations in nanoseconds, a typed duration and the end of a
-- protection period wrap at 2 ^ 64. A number is printed on fuel, one unit a digit, and 20 units
-- are enough for 64 bits. The attempts of a start are bounded by the quotient of the timeout and
-- the poll interval. writeVarInt runs on fuel, one unit a round; 5 rounds take the 31 bits of a
-- value that is not negative, seven at a time. All other loops are structural.
--
-- Not modelled: logging, mutexes (calls between two waits are steps, in Races those between two
-- locks), opening and closing the SQLite database, the times at which tickers fire, deadlines,
-- the registration of handlers with the proxy, the colours of messages, and isServerOnline, which
-- nothing calls: they are calls of libraries, or leave no state.
pub mod Base
pub mod Float64
pub mod LoadBalancer
pub mod Minecraft
pub mod DynamicServer
pub mod Permission
pub mod Whitelist
pub mod McsManager
pub mod Config
pub mod Plugin
