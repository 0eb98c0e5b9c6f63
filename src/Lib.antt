-- ===== src/Lib.antt =====
-- DeviceOps: a platform of RPC services for the devices of a site. Devices publish JSON messages to
-- an MQTT broker. The device gateway takes them, counts them, keeps a view of the connected devices
-- and forwards each to the service that it is for: registrations to the device service, telemetry to
-- the telemetry service, alarms to the event service and logs to the log service. These keep their
-- data in MySQL (by ODB), in memory with a copy in Redis, and in Elasticsearch, answer queries page
-- by page, and announce what happened on RabbitMQ. The knowledge service keeps documents and searches them, the
-- diagnosis service keeps faults and reports; both call a RAG service over HTTP, to index a document
-- and to draft a report. A simulator makes the messages of a robot.
--
-- Which file models which part, by its path in the repository:
--   Device        services/device_service: DeviceRepository (Device/Repository), the token hash
--                 (Device/Token) and DeviceServiceImpl (Device/Service)
--   Event         services/event_service: EventRepository (Event/Repository, Event/Status) and
--                 EventServiceImpl (Event/Service)
--   Telemetry     services/telemetry_service: TelemetryRepository and TelemetryServiceImpl
--                 (Telemetry/Service)
--   Log           services/log_service: LogRepository, the documents that it stores (Log/Document) and
--                 LogServiceImpl (Log/Service)
--   Gateway       services/device_gateway: GatewayServer (Gateway, Gateway/Topic), its RPC service
--                 with start and stop (Gateway/Rpc) and DownstreamForwarder (Gateway/Forwarder, with
--                 its requests in Gateway/Forwarder/Requests)
--   Knowledge     services/knowledge_service: KnowledgeRepository (Knowledge/Repository), RagClient
--                 (Knowledge/Index) and KnowledgeServiceImpl (Knowledge/Service)
--   Diagnosis     services/diagnosis_service: DiagnosisRepository (Diagnosis/Repository, with its
--                 conversions in Convert, its operations in Faults and Reports, and what they
--                 can reach in Reachable),
--                 DiagnosisRagClient (Diagnosis/Draft) and DiagnosisServiceImpl (Diagnosis/Service,
--                 StartDiagnosis in Diagnosis/Service/Start)
--   Rag           what these two clients of the RAG service share
--   Simulator     simulator: the snapshots, messages and the loop of RobotDeviceSimulator
--   Odb/Config, Odb/Schema   common/src/odb_database.cc
--   Odb/Calls, Sorting/Page  the transactions and the sorted pages that the knowledge and the diagnosis
--                 repository share
--   Env           the environment readers that many files have each; with them, Gateway/Config,
--                 Telemetry/Config, Log/Config and Mq/Config read the settings
--   Mq            common/src/mq: RabbitMqEventPublisher
--   Paging, Rpc   the page arithmetic and the messages that all services repeat or share
-- and, below them, Str, StdMap, Prelude (texts, std::map, numbers and lists), Json (jsoncpp), Sorting
-- (std::sort) and Odb (the ODB session).
--
-- A function of the model has the name of the function of the source. State is passed explicitly: a
-- repository is a record of what its members hold, the database is a state of the ODB session, and a
-- function that changes state returns the new one. The clock is an argument: one reading for a call,
-- also where the source reads it twice in a row, but one for each step of a message at the gateway.
-- A `bool` with an `std::string* error` is a `Reply`, accepted or rejected with the message; an
-- exception is an `Outcome`, returned or thrown. A transaction that throws leaves the database as it
-- was. int64_t is ℤ; a counter or a sequence number is a 64-bit number that wraps; the `int` product
-- of a page number and a page size wraps to 32 bits. Texts are lists of bytes, doubles are values of
-- a parameter. Two loops run on fuel: the one that takes slashes off a base URL, for which the length
-- of the URL is enough, and the simulator's, for which its loop count is enough where it has one;
-- without one it ends only when a stop is requested. Where the simulator's sequence number leaves the
-- range of an int, which C++ leaves undefined, the loop ends as `overflowed`. All other functions are
-- structurally recursive. The sums and differences of int64_t times, in a log context and in the age of
-- telemetry, are taken not to overflow.
--
-- Parameters, with their documented behaviour as hypotheses: the ODB session (`IsOdb`, met by the
-- table in memory of Odb/Memory), jsoncpp (`IsJson`, `IsRagJson`), std::sort (`IsSort`); and with none the
-- Redis, Elasticsearch, MQTT and RabbitMQ clients, libcurl, the MySQL server, the environment, random
-- numbers, the arithmetic on doubles and the RPC stubs. A search's scores are counted in halves. Each handler is one step: the locks of
-- the source make its changes atomic one by one, and interleavings of handlers are not modelled.
--
-- One simplification: a query of the ODB session that asks for no order is a function of the database,
-- and so gives the rows of an unchanged table in one order; no theorem compares the orders of two calls.
--
-- Not modelled: the process entry points (they hand settings to libraries), channels and servers, the
-- Qt client (a user interface), the RAG service (Python), tools and scripts.
pub mod Prelude
pub mod Str
pub mod Paging
pub mod Odb
pub mod Rpc
pub mod Outcome
pub mod StdMap
pub mod Sorting
pub mod Json
pub mod Rag
pub mod Knowledge
pub mod Mq
pub mod Device
pub mod Gateway
pub mod Simulator
pub mod Env
pub mod Event
pub mod Diagnosis
pub mod Telemetry
pub mod Log
