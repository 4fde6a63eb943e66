-- ===== src/Lib.antt =====
-- Agile firmware framework: a model of the portable layers of the framework, and what is proved of
-- them. Paths are from the root of the repository.
--
-- The framework has five layers. components/uhal declares status codes and the ports of the
-- hardware (storage, clocks, pins, buses); components/platform and components/devices implement
-- them. components/libraries has containers, serialization and checksums without hardware.
-- components/protocols has frames, topics and requests for the wire.
-- components/services has the policies that products compose from the libraries over the ports.
--
--   Prelude, Prelude/*          names of the libraries passed on, lists over the native numbers,
--                               machine words (Words), bit fields (Bits), copying loops (Copy),
--                               texts in C (Strings)
--   Uhal, Uhal/Storage          uhal/core/Status.hpp, uhal/interfaces/IStorage.hpp
--   Libraries/Bytes, Bytes/*    components/libraries/serialization: ByteWriter, ByteReader
--   Libraries/Crc               components/libraries/include/libraries: Crc16.hpp, Crc32.hpp
--   Libraries/RingBuffer, */    components/libraries/ring_buffer: FixedRingBuffer
--   Libraries/Retry             components/libraries/retry: BackoffPolicy, Deadline
--   Libraries/Button            components/libraries/button: ButtonInput
--   Libraries/Events, Events/*  components/libraries/include/libraries: EventBus.hpp
--   Libraries/StateMachine, */  components/libraries/include/libraries: StateMachine.hpp
--   Libraries/Json, Json/*      components/libraries/serialization: JsonWriter, JsonScanner
--   Protocols/Frame, Frame/*    components/protocols/frame: FrameCodec
--   Protocols/Mqtt, Mqtt/*      components/protocols/mqtt: MqttTopics, MqttSessionPolicy
--   Protocols/Modbus, Modbus/*  components/protocols/modbus-rtu: ModbusRtuMaster
--   Services/Limits             components/services/types: Limits.hpp
--   Services/Text               text_length and text_equal, which ConfigService.cpp declares, and
--                               others under names of their own
--   Services/Config, Config/*   components/services/configuration: ConfigService
--   Services/Ota, Ota/*         components/services/ota_manager: OtaService
--   Services/Provisioning, */   components/services/provisioning: ProvisioningService
--   Services/Security, */       components/services/security_policy: SecurityPolicy
--   Services/Health, Health/*   components/services/health_monitor: HealthMonitor
--   Services/Diagnostics, */    components/services/diagnostics: DiagnosticsService
--   Services/Network, */        components/services/network_manager: NetworkManager
--   Services/TimeSync, */       components/services/time_sync: TimeSyncService
--   Services/Dispatcher, */     components/services/command_dispatcher: CommandDispatcher
--   Services/Messages           components/services/messaging: MessageEnvelope.hpp
--   Services/Offline, */        components/services/offline_queue: OfflineQueue, and replay_one of
--                               components/services/telemetry: TelemetryService
--   Services/Telemetry          publish_bool of TelemetryService
--   Services/BinarySwitch       components/services/binary_switch: BinarySwitchService
--   Services/Indication, */     components/services/indication: IndicationService
--
-- A class is a record of its members; a method is a function of the same name in snake case that
-- takes the record and returns what the method returns, then the reference parameters that it
-- writes, then the record. An array of bytes is a list of numbers; a null pointer is `none`.
-- uint8_t, uint16_t and uint32_t wrap at their width, and size_t has 32 bits, as on the target
-- controllers. Loops over an index are structural recursion, over the list or over the rounds left,
-- so no fuel is needed.
--
-- OtaService downloads an image in chunks, checks its digest and its signature and activates it;
-- its five ports are a parameter over a state of their own, and `IsFaithful` states what they keep.
--
-- ProvisioningService takes credentials from a portal and stores them; its portal, validator and
-- configuration store are parameters in the same way.
--
-- ConfigService keeps 24 records in memory and saves them by turns in two slots of a storage
-- device. What it holds is a dictionary from key texts to values (Config/Contents). The device is a
-- parameter, a `Storage` over a state of its own, and `IsFaithful` states what its calls promise:
-- an `ok` is kept, and no call touches a byte outside its range; it may fail at any call.
--
-- SecurityPolicy keeps the role that each command requires and the state of the credentials.
-- HealthMonitor feeds a watchdog while its sources check in. OfflineQueue, on the ring buffer, keeps
-- messages that TelemetryService sends later over a transport. The watchdog, the recovery action,
-- the transport, the serial port of ModbusRtuMaster and the sinks of the event bus are parameters
-- over a state of their own, about which nothing is assumed but, where calls are counted, that each
-- call counts once.
--
-- NetworkManager polls its links and keeps one of those that are up; TimeSyncService sets the clock
-- from a source of time. Links, observer, source and clock are parameters too.
--
-- JsonWriter writes one object into a buffer; JsonScanner looks fields up in one. Characters are the
-- numbers of their bytes: `char` is unsigned, as on the target controllers.
--
-- CommandDispatcher reads a command with JsonScanner, asks the authorizer, calls the handler and
-- answers with JsonWriter and MqttTopics; it keeps its last eight answers for commands that come again.
--
-- Two pointers are taken as given: the array that JsonScanner's get_string fills is there, and the
-- digest and the signature that SecurityPolicy's verify_image hands on are lists, which carry their
-- sizes.
--
-- BinarySwitchService drives the pins of a load and its indicator and stores the state;
-- IndicationService shows the active request of the last source on an indicator. Pins, store and
-- indicator are parameters too.
--
-- Not modelled: the environment monitor, and the platform layer, the devices and the products, which
-- are input and output.
pub mod Prelude
pub mod Uhal
pub mod Libraries
pub mod Protocols
pub mod Services
