-- ===== src/Lib.antt =====
-- Verification of pentameter.
--
-- pentameter reads a pool controller (Pentair IntelliCenter) over a WebSocket and exports what it
-- sees: as Prometheus gauges, as HomeKit accessories, or as a log of events. The development models
-- the Go code of the repository that carries this out.
--
-- The parts and how they interact
--   A client (intellicenter/client.go) owns one connection. A request gets a fresh id, is written
--   once, and its answer is looked for among the frames that come back; a controller also sends
--   pushes that nobody asked for. query.go and control.go are requests over a client; parse.go turns
--   the params of an object into a typed value.
--   The engine (intellicenter/engine.go) mirrors the controller. A poll loop scans all equipment
--   over one client, a push loop applies pushes from another; both merge params into the object,
--   parse it again, store the typed value if it differs, and offer the change to each subscriber.
--   The monitor (main.go, metrics_engine.go) recomputes all gauges from the engine's raw objects, at
--   each scan and, once one has succeeded, at each change. In listen mode (listen_engine.go) it also
--   remembers what it has seen, and logs what is new or has changed, for polls and for raw pushes.
--   The responder (advertise.go) answers mDNS queries for the exporter; the search (discovery.go) asks
--   for the controller.
--   The shim (homebridge.go) announces accessories from the engine's snapshot, forwards the
--   engine's changes as messages, and turns commands into writes, which it verifies by a refresh.
--
-- Files and sources
--   Prelude, Prelude/*: shared names; Map.antt is Go's map, Float.antt is float64, Text.antt is
--     what the program uses of strings and strconv.
--   IntelliCenter/Types, Parse, Interpret, Query, Control: intellicenter/types.go, parse.go,
--     interpret.go, query.go, control.go, one definition for each function, named alike
--     (circuitFrom is circuit_from).
--   IntelliCenter/Client, Client/Retry: intellicenter/client.go; Client/Match has the theorems
--     about round trips and IntelliCenter/Written those about writes. IntelliCenter/Json is what
--     encoding/json decodes into `any`.
--   IntelliCenter/Engine: the state and apply; Engine/Scan, Push, Config, Session, Rounds: scan and
--     RefreshBody, handlePush, loadConfig, pollLoop, pushLoop and the rounds of Run of
--     intellicenter/engine.go. Engine/Running: sessions as interleavings, and Run with its hooks.
--     Engine/Store, Mirror, Updates, Reach, Live, Running/Down, Safe: the invariant; Replay, Told:
--     subscribers; Poll, Backoff, Running/Late, Rounds/Kept: loops; Running/Grammar: the order of the
--     hooks; Running/Natural, Log, Rounds/Agree: a user of the engine is a fold over the log of what
--     it hears.
--   Monitor/State, Bodies, Pumps, Status, Circuits, Stale, Thermal: the PoolMonitor of main.go;
--     Monitor/Changes: logChangedf. Monitor/Refresh: refreshFromEngine of metrics_engine.go. Gauge
--     is a gauge vector of Prometheus. Delivery, Links, Series, Order, Written, Exported and
--     Features have theorems.
--   Monitor/Watch, Watch/*: EquipmentState and the trackers of main.go. Monitor/Listen: listenPoll
--     of listen_engine.go and its two queries; Listen/Pushes: processRawPushNotification and what
--     it calls. Listen/Lines and below, Listen/Deaf and Listen/Notified have theorems.
--   Monitor/Exporter: runMetricsEngine of metrics_engine.go and hbMetrics of homebridge.go;
--     Exporter/Follows is what it shows, and Exporter/Running puts it on top of Run.
--   Homebridge/Convert, Items, Publish, Thermostat: homebridge.go; Homebridge/Emitter: its messages
--     as JSON; Homebridge/Commands: hbReadStdin and hbApplySets; Homebridge/Metrics:
--     startHBMetrics; Homebridge/Running: hbRun on top of Run. Settle, Sorted, Heaters, Forwarded
--     and the files of Running/ have theorems.
--   Config, Config/Main: the settings of main.go, and the mode that they start.
--   Discovery, Discovery/Interfaces, Discovery/Rounds, Discovery/Search: discovery.go, with
--     getInterfaceIPv4 of advertise.go, and newDiscoveryResolver and resolveIntelliCenterIP of
--     main.go. Advertise, Advertise/Start: advertise.go. Interfaces/Best, Search/Found and the
--     other files of Advertise/ have theorems.
--   Examples/*: runs at concrete inputs.
--
-- How the code is modelled
--   A mutex makes what it protects one step. State is passed explicitly; an error is a value of
--   `Result`. A map is a list of entries, and the order of the list stands for the order in which
--   Go iterates, which the language leaves open. `float64` is a parameter with the operations that
--   the program uses and with no law, not even that `==` is reflexive. A socket is the list of the outcomes of its coming
--   writes and the list of its coming frames; a frame is what ReadJSON makes of it, typed and
--   generic. The clock is a function of the number of readings. Case mapping and white space are
--   those of ASCII.
--
-- Bounds and fuel
--   A round trip reads at most 10 frames (maxUnsolicitedMessages), a session survives 2 failed
--   polls in a row, the config is reloaded every 60 polls, a subscriber's channel holds 64 changes:
--   these are the program's own bounds. The poll loop and the push loop take the number of ticks or
--   messages before they are cancelled, a session the list of its turns, Run the list of its
--   rounds. The search of discovery.go takes the list of its passes, and says when it is over. The
--   digits of a number have fuel 20, for an int of 64 bits has at most 19 digits. Recursion is
--   otherwise structural.
--
-- Not modelled
--   Sockets, the HTTP server, the Prometheus registry, standard input and output, and goroutines as
--   such: I/O of libraries. The packing of DNS messages is a parameter. Of the log lines, those of
--   listen mode are modelled, by what they report and not by their wording; outside it only
--   logChangedf is, which decides about a message that is given. A line of standard input is what
--   the scanner yields, and JSON is modelled by its values, not by its text. The texts of usage and
--   the flag package are left out. The scheduler is any list of turns in Engine/Running, those of poll
--   loops that outlive their sessions included; a turn is
--   a whole tick or a whole message there, and any order of smaller steps in Engine/Reach.
pub mod Prelude
pub mod Config
pub mod Discovery
pub mod Advertise
pub mod IntelliCenter
pub mod Monitor
pub mod Homebridge
pub mod Examples
