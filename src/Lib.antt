-- ===== src/Lib.antt =====
-- Jackfield, an in-process message bus with affinity-based routing: a model of src/components and
-- of src/integrations/python, and the theorems that make it correct. The paths in all comments are
-- those below src/.
--
-- Producers send envelopes through a channel to the bus. The bus (components/bus/bus.rs) applies
-- the commands that wait for it and gives each envelope to its router, which asks the registry
-- for a plan, offers the message to consumers, and lets the registry's dimensions observe what
-- came of it. An envelope that nobody takes goes to the pending buffer.
--
--   Common: numbers, lists, membership, and the standard library's stable sort.
--   Platform: what the crate takes from elsewhere: `f32`, the `uuid` crate, `dyn Any`. It is a
--   record of types, operations and documented laws, and an instance argument throughout;
--   Platform/Sample is a platform on which the definitions run.
--   Message: components/message, and the envelope of components/router/envelope.rs.
--   Dimension: components/router/dimensions: the trait and `adjust_weight`; Dimension/Builtin the
--   built-in dimensions of dims.rs.
--   Consumer: the trait of components/endpoint/endpoint.rs.
--   Registry: components/registry/registry.rs, with its builder, `plan` and `observe`.
--   Router: components/router/router.rs: the trait `Router`, `AffinityRouter`, `BlindRouter`, and
--   the contract between routers and the bus.
--   Bus: components/bus/bus.rs; Bus/Delivery joins it to the AffinityRouter for `drain`, and
--   Bus/Serving and Bus/Learning for `dispatch`; Bus/Directory is what a client may know of its
--   registry, and what commands mean for it.
--   Throttle: components/endpoint/throttle.rs; Platform/Double is what it takes from `f64`.
--   Producer: components/bus/error.rs, the producer handles of components/router/envelope.rs, the
--   trait `Producer`, and what of bus.rs makes handles; Bus/Handle: its `BusCmdHandle`;
--   Producer/Direct: the in-process endpoint of components/endpoint/direct.rs.
--   Network: components/endpoint/network/connection.rs; Network/Connections: its
--   `ConnectionRegistry`, as a step relation of the tasks that share it, one step for each access.
--   Network/Socket: the connection handler of ws.rs beside it, over the frames that arrive.
--   Network/Grpc: the three handlers of grpc.rs over its table of endpoints; Network/Grpc/Tasks and
--   Network/Forwarding: the tasks that they and the connection handler spawn; Network/Grpc/Calls:
--   calls and tasks of the service as moves between their waits, in any order, and in
--   Network/Grpc/Alone with nothing between; Network/Servers: the endpoints of both files, with the
--   accept loop of ws.rs.
--   Python: integrations/python/integration.rs; Python/Passing joins it to the bus; Python/Stock is
--   the multiset of the messages that wait in its queues, and Python/Sending what becomes of it from
--   the calls of `send` to the callbacks.
--
-- State is passed explicitly. Consumers, channels and the clock lie in a world of a type S that
-- stays open: a consumer is a record of functions on it, and the receivers of the bus are the
-- operations of the record `Channels`, whose laws are those of a first-in first-out queue.
-- A function that takes `&self` reads; `await` adds nothing to the effect of the call that it
-- waits for. Numbers are natural numbers; ids wrap at 2^64, and `usize` has 64 bits. The loops of
-- `drain` over channels take fuel, one more than there are waiting envelopes and commands, which
-- `drain_lem` shows to be enough if nobody sends to the bus meanwhile.
-- `dispatch` never ends, so it is a relation of the runs that it may reach. `wait_for_token` takes
-- fuel too, a number of tries; a handle without a throttle needs none.
--
-- Not modelled: what the servers leave to tokio and tonic; the runtime of Python and the making of
-- its module. The spawned tasks of a WebSocket connection and of the Python bus run without a call
-- between their steps; the steps of `ConnectionRegistry` and of the gRPC service interleave. A
-- bucket's arithmetic over time is exact for whole seconds, at which Throttle/Rate asks it;
-- Throttle/Refill, for all times, takes what rounding leaves from the laws of Platform/Double.
pub mod Common
pub mod Platform
pub mod Message
pub mod Dimension
pub mod Consumer
pub mod Registry
pub mod Router
pub mod Bus
pub mod Throttle
pub mod Producer
pub mod Network
pub mod Python
mod Tests
