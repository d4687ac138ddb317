-- ===== src/Lib.antt =====
-- rtt_opcua: an OPC UA transport for Orocos RTT.
--
-- The program serves the interface of an RTT component, its ports, properties and operations, as
-- nodes of an OPC UA server, and mirrors a remote component in a proxy. Plugins register providers
-- of custom data types before the first server or client starts. The server publishes the nodes
-- that its publication selectors choose; every callback of the server takes a lease on the
-- component for as long as it uses it; the proxy pumps samples between local and remote ports.
--
-- Text is a list of bytes (Base.Text). A std::map and a std::set are lists sorted by their keys
-- without repetition (Base.Order); numbers are natural numbers, with the wrap-around of a size_t
-- written out. The modules:
--
--   NodeId         src/node_id.cpp: isUnreserved, escapeNodeIdSegment and makeNodePath.
--   Selector       src/publication_selector.cpp: decodeCanonicalSegment, splitPath, parseSelector,
--                  parseResource, matches and matchPublicationSelectors, under these names.
--   RemotePort     src/remote_port.cpp: RemotePortAdapter. Adapter is its state; the answers of the
--                  local port, of the session and of the codec during one pump are arguments
--                  (InputWorld, OutputWorld, Codec), any answer included; an exception that leaves
--                  the call of the session, of buildValue, or of the port's read or write is one of
--                  the answers.
--   Lease          src/component_state.hpp: ComponentState, ComponentLease, deactivate and
--                  isActive, on a state that is not null. Each section under the mutex is one step of
--                  System, so a run is any interleaving of threads; release notifies the waiting
--                  threads in the step that gives the lease back. deactivate is a step up to its wait,
--                  in which the thread sleeps until it is woken, and one behind it.
--   ProviderOrder  src/datatype_registry.cpp, computeProviderOrder: the graph of the names and
--                  dependencies of the providers. The loop runs on fuel, a round for each provider;
--                  that it is enough is part of the result on complete orders.
--   DataTypes      src/datatype_registry.cpp: registerDataTypeProvider, freezeDataTypeRegistry and
--                  frozenDataTypeProviders on the state of the registry. The function that makes
--                  a type of the OPC UA library is a value of an arbitrary type.
--   Server         src/server.cpp: the tasks that enqueue and invoke put into the deque of the
--                  server, drainTasks, failPendingTasks, the time-out of invoke and requestStop. A
--                  task is a position in a store, as the source holds it by a shared pointer. A
--                  step is an access that the source makes under a lock or by an atomic exchange;
--                  a round of the loop of drainTasks is one step, since between its exchange and
--                  its completion another thread can only find the task running and wait. What a
--                  callback throws is an argument.
--   Schema         src/operation_dispatcher.cpp, describe: the schema by which an operation of RTT is
--                  published. RTT's operation is a record of its answers, of which only
--                  getArgumentList may throw; the codec of a type is an argument. The numbers in
--                  made-up names of arguments are written on fuel of twenty, enough for 64 bits.
--   RemoteOperation  src/remote_operation.cpp: the operation that a proxy makes from a description of
--                  client_session.hpp: its constructor, RemoteCallAction, RemoteSendAction,
--                  RemoteCollectDataSource, and the checks of the caller's data sources. The data
--                  sources stand in a store; the codecs, the session's call and the future's
--                  answers are arguments. An assignment may fail behind a write, and does not throw.
--   Dispatcher     src/operation_dispatcher.cpp: invoke, the retained invocations, reapOnce and
--                  drain, on the leases of Lease. What RTT answers during an invocation is an
--                  argument (Answers), with a list of the looks at the running operation; invoke is
--                  none when the list ends before the operation or the deadline does, or when it is
--                  late while the dispatcher drains and the wait for it never ends; drain likewise is
--                  none at the end of its list of rounds. The codecs, buildValue, send and
--                  the check of the send handle do not throw.
--   Session        src/client_session.cpp: ClientSession: connect, readValue, writeValue, readPortValue,
--                  writePortValue, callLocked, setInterfaceAccessEnabled, and a discovery that an
--                  exception ends. Each operation holds the mutex, so a sequence of them is any
--                  interleaving; the store before the lock of setInterfaceAccessEnabled is one of
--                  its own. What the network client answers is an argument, and so are the names of
--                  the status codes and the making of the type registry.
--   Discovery      src/client_session.cpp, discoverOperations behind its browse, with the functions that
--                  read the metadata of a method; what the server answers for the paths of its
--                  metadata nodes are arguments. Discovery.Publish is the publication of a described
--                  operation in src/object_model.cpp, appendOperationBundle. Discovery.Usable joins
--                  Schema, Discovery.Publish, Discovery and RemoteOperation, with a server that
--                  answers for the published nodes and does not know any other. Discovery.Ports is
--                  discoverPorts, likewise behind its browse, on a session with a type registry.
--   ServerOptions  src/server_options.cpp: validateServerOptions, isLoopbackAddress and
--                  endpointUrl. The digits of the port are made on fuel of five, which is enough
--                  for 16 bits.
--   Base           shared types, Boolean tests, orders, and lemmas on lists and texts.
--   Tests          concrete inputs.
--
-- Not modelled: the start and the joins of the server's thread, the object model but for the
-- publication of an operation, the client session's discoveries of values and services, the proxy,
-- the type and the connection policy protocols, the endpoint type registry, failed allocations, and
-- the memory and the locks below the level of a critical section. The OPC UA library, RTT and the
-- C++ library are outside the program.
pub mod Base
pub mod DataTypes
pub mod Discovery
pub mod Dispatcher
pub mod Lease
pub mod NodeId
pub mod ProviderOrder
pub mod RemoteOperation
pub mod RemotePort
pub mod Schema
pub mod Selector
pub mod Server
pub mod ServerOptions
pub mod Session
pub mod Tests
