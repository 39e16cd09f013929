-- ===== src/Lib.antt =====
-- tolo-observation: the service that keeps edge devices, their measurements and the observed state
-- of an event. This library models its domain, its use cases and the checks around them.
--
-- The parts and their files (paths from the repository's root):
-- - internal/domain/edge_device.go: EdgeDevice (devices, points, links; NewEdgeDeviceWithKind,
--   Unregister, UpdateObservationPoint, Online, Heartbeat) and PublicId (newPublicID, parsePublicID).
--   A method with a pointer receiver is a function that returns the new device.
-- - internal/domain/heartbeat_loss_hold.go: Hold (Decide, Connected, ObservationPointStates);
--   internal/application/heartbeat_loss_hold.go: Holds (Evaluate over the repository interface);
--   internal/infra/db/heartbeat_loss_hold.go: Db/Holds (the queries over a list of rows).
-- - internal/domain/measurement.go: Measurement. internal/domain/snapshot.go: Snapshot, with the
--   readings of points in Snapshot/Read, the scores of anchors in Snapshot/Compose and NewSnapshot in
--   Snapshot/Build; FlowSensitivityEta is in Snapshot/Flow. internal/domain/sensor_set.go: SensorSet.
-- - internal/tenantctx/tenantctx.go: TenantCtx. internal/domain/observation_settings.go and
--   internal/application/observation_settings.go: Settings.
-- - internal/application/edge_device.go: EdgeDeviceService (register, unregister, heartbeat) and
--   EdgeDeviceQueries (the use cases that evaluate the hold). internal/application/
--   measurement_ingest.go: Ingest. internal/application/status_query.go: StatusQuery.
-- - internal/application/observation_cycle.go: Cycle (Run and its parts, over the interfaces of
--   internal/repository and of the other services); Cycle/Keeps says what its parts leave alone.
-- - internal/infra/db: Db/Transaction (transaction.go: RunInTransaction and Executor over what the
--   driver answers), Db/Settings, Db/Measurements and Db/GuestStatuses (the repositories of
--   observation_settings.go, measurement.go and guest_status.go over lists of rows, with the
--   constraints of the migrations), Db/DeviceTables and Db/EdgeDevices (the tables and queries, and the
--   statements that write, of edge_device.go; Store shows that this repository keeps the laws that
--   the use cases of devices assume).
-- - internal/infra/connect/errors.go: ClientErrors. The sentinel errors of every package: Errors.
-- - internal/infra/connect/service.go: Connect, with a module for the handlers of each service;
--   Connect/Status has internal/infra/pubsub/guest_status.go as well.
-- - internal/infra/connect/flow_client.go: FlowClient (Graph, Observations and Digest are parts of
--   the request that Request puts together). graph_client.go: GraphClient, with the graph's types of
--   internal/domain/snapshot.go in Graph. operation_client.go: OperationClient.
-- - internal/logging/handler.go: Logging (the trace handler over the handler of log/slog).
-- - Common has the shared helpers, GoTime and Float what the code uses of time.Time and float64.
--
-- A use case is an action: a function from a state to a result and a state, so that what was written
-- before an error stays visible. The repositories, the clock and the source of randomness are
-- records of actions or actions, over any state; Tests has them over a list of devices. Common/
-- Result has the results and the chaining of actions.
--
-- Numbers: an int64 is an integer with its wrap-around or saturation written out (Common/Int); an
-- instant is an unbounded number of nanoseconds; counts of a database are natural numbers. A
-- float64 is a type with operations of which nothing is assumed. Texts are lists of code points.
-- All loops are structural recursion over lists, so there is no fuel. A Go map is an association
-- list in the order of its first insertions; where the code ranges over one it sorts first.
--
-- A nil dereference or an index out of range is a value: `none` of the snapshot's anchors, an
-- external error of the registration. Log lines, metrics and traces are left out.
--
-- A statement on devices, points, links or measurements fails for a constraint or a missing row; other
-- failures of the driver there are those of beginning and committing the transaction. Settings, guest
-- statuses and holds are over a driver that may fail in each call.
--
-- The remote services, the driver of the database, protobuf's JSON, encoding/json, log/slog and the decoding
-- of stored diagnostics are parameters. A call with a timeout answers with an error when it runs out. The
-- two calls to the operation service run at once: a parameter says which comes first.
--
-- Not modelled: the PostgreSQL repository of snapshots, the constant configuration of the
-- flow controller, transport and interceptors, the publisher, telemetry, HTTP, the programs,
-- and generated code other than the messages that the handlers read.
pub mod Common
pub mod Connect
pub mod Cycle
pub mod Graph
pub mod Logging
pub mod GraphClient
pub mod OperationClient
pub mod FlowClient
pub mod Errors
pub mod PublicId
pub mod GoTime
pub mod EdgeDevice
pub mod Float
pub mod Hold
pub mod Holds
pub mod Db
pub mod TenantCtx
pub mod Settings
pub mod ClientErrors
pub mod Measurement
pub mod Snapshot
pub mod SensorSet
pub mod EdgeDeviceService
pub mod EdgeDeviceQueries
pub mod Ingest
pub mod StatusQuery
pub mod Tests
