-- ===== src/Lib.antt =====
-- A verification library of Sigbench, a load generator: agents simulate users, a master collects the
-- agents' counters, and a service takes jobs over HTTP.
--
-- The parts, and the files that model them:
--   base/job.go                      Base, Base/Validation: jobs, phases and their validation
--   util/vmss.go                     Util: the instance id in a host name
--   agent/agent_controller.go        Agent/Users and Agent/Shares: getSessionUsers; Agent/Phase,
--                                    Agent/Crew, Agent/Drain and Agent/Plan: runPhase and
--                                    executeSession; Agent/Control and Agent/Report: Setup,
--                                    ListCounters, getSystemCounters
--   master/master_controller.go      Master/Collect: collectCounters; Master/Run: Run and
--                                    watchCounters; Master/Cover: the calls of the agents;
--                                    Master/Watch: watchCounters as a thread beside Run;
--                                    Master/Total: collectCounters over the agents' ListCounters;
--                                    Master/Order: counter maps up to their order; Master/Agents:
--                                    RegisterAgent, with agent/agent_delegate.go
--   service/controllers.go           Service/Mux, Service/Jobs: the state and the handlers;
--                                    Service/Exclusive, Service/Stuck: concurrent requests;
--                                    Service/Handler: the handler as a run of them;
--                                    Service/Registry, Service/Heartbeat, Service/Expiry: registered
--                                    agents; Service/Serve: the routes, and the service as a whole
--   snapshot/                        Snapshot/Memory, Snapshot/Aggregated, Snapshot/Json,
--                                    Snapshot/Influx: the writers
--   sessions/session.go              Sessions/Api: the interfaces; Sessions/Registry: three
--                                    implementations of them; Sessions/Names: SessionMap, and the
--                                    counters of all its sessions; Sessions/Dummy
--   sessions/http_get.go             Sessions/HttpGet, with the client it configures in
--                                    Sessions/HttpGet/Client
--   sessions/quic.go                 Sessions/Quic: the pool of connections
--   sessions/signalr_core_broadcast_sender.go   Sessions/Broadcast, with the goroutine that reads in
--                                    Sessions/Broadcast/Reader
--   sessions/signalr_fx_broadcast_sender.go, sessions/signalr_fx.go   Sessions/FxBroadcast; what it
--                                    does like the former is Sessions/Sender,
--                                    with the channel of latencies in Sessions/Sender/Channel
--   sessions/webpubsub_echo.go       Sessions/WebPubSub: Execute; Sessions/WebPubSub/Reader: Execute
--                                    and its reading goroutine as two threads, and beside it what
--                                    follows of them
--   sessions/signalr_core_echo.go    Sessions/SignalrEcho; what it shares with the former is
--                                    Sessions/Echo
--   sessions/kafka.go                Sessions/Kafka, Sessions/Kafka/Account
--   sessions/redis_pubsub.go         Sessions/Redis; Sessions/Redis/Exit: Execute and its subscriber as
--                                    two threads
--   sessions/rabbitmq_massive_queue.go   Sessions/RabbitMq/Pool and Sessions/RabbitMq/Packed: the pool of
--                                    channels; Sessions/RabbitMq/Queues: the session
--   sessions/pulsar_massive_queue.go   Sessions/Pulsar
--   cmd/main.go                      Command: the modes, and the command line's master;
--                                    Command/Modes: an agent's and a service's start
--   Counters, Text and Prelude hold what the parts share: counters as association lists over int64,
--   lists of addresses, and words, lists, maps and outcomes. Examples applies the theorems to inputs.
--
-- How the parts interact: the agent and the master reach the sessions through the interface SessionApi,
-- and the writers through WriterApi; the service holds the controller of the master that runs, and the
-- memory writer that it fills.
--
-- Conventions. An int64 is a number below 2 ^ 64, and its operations wrap around (Prelude/Word). A call
-- returns, panics, or is still running when the rounds granted to its loop are used up; getSessionUsers
-- alone takes such fuel, and as many rounds as there are agents are enough. A session's call of Execute
-- is the list of its atomic additions with how it ends (Sessions/Script); what the network, JSON and the
-- clock answer is an argument. Where Execute starts goroutines that count (the queues of Pulsar),
-- their additions come in any order; what a subscriber counts is apart from what its Execute does.
-- Code between lock operations, the goroutines of a phase, watchCounters beside Run, and the two
-- threads of sessions/webpubsub_echo.go and of sessions/redis_pubsub.go are steps of state machines, so
-- that a theorem about every sequence of steps holds of every schedule; a send on a channel without a
-- buffer is one step with the receive. Master/Run is the sequence of Run in which watchCounters has ended before the last collection.
--
-- Not modelled: the HTML page, the servers that cmd/main.go listens with, and RPC. http.ServeMux, which
-- picks the handler of a path, and the InfluxDB client are parameters.
-- Third-party code, float64, durations' texts and the clock are parameters.
pub mod Prelude
pub mod Text
pub mod Util
pub mod Base
pub mod Counters
pub mod Sessions
pub mod Snapshot
pub mod Agent
pub mod Master
pub mod Service
pub mod Command
pub mod Examples
