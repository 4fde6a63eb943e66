-- ===== src/Services/Dispatcher.antt =====
-- components/services/command_dispatcher: CommandDispatcher, which hands commands to their handlers
-- and answers each once, repeated ones from a window of eight answers.
pub mod Window
mod Tests
use agile_firmware_framework.Prelude.{
  ℕ, ◌+◌, ◌%◌, Bool, true, false, not, ◌&&◌, ◌||◌, Option, none, some, List, [], ◌∷◌, get_or, set,
  take, replicate, length, leb, if◌then◌else◌,
}
use agile_firmware_framework.Prelude.Copy.{copy}
use agile_firmware_framework.Prelude.Words.{add_size}
use agile_firmware_framework.Uhal.{
  Status, ok, timeout, nack, bus_error, busy, io_error, unsupported, invalid_argument, not_found,
  no_resources, corrupt, not_ready, denied, aborted, is_ok,
}
use agile_firmware_framework.Libraries.Json.Writer.{
  JsonWriter, json_writer, both, begin_object, end_object, field_string, field_u32, field_bool,
}
use agile_firmware_framework.Libraries.Json.Scanner.{get_string, get_bool}
use agile_firmware_framework.Protocols.Mqtt.{MqttTopics, command_response, build}
use agile_firmware_framework.Services.Limits.{
  topic_capacity, payload_capacity, command_handler_capacity, idempotency_window,
}
use agile_firmware_framework.Services.Text.{Text, text_equal, c_text}
use agile_firmware_framework.Services.Messages.{MessageEnvelope, at_least_once, at_most_once}

pub data CommandSource : Type 0 where
  local gateway provisioning_portal : CommandSource

pub record CommandRequest : Type 0 where
  pub id : List ℕ
  pub name : List ℕ
  pub value : Bool
  pub has_value : Bool
  pub source : CommandSource

pub record CommandResponse : Type 0 where
  pub status : Status
  pub state : Bool

abbrev pub blank_response : CommandResponse
blank_response = record { status = ok; state = false }

-- An answer of the window.
pub record Cache : Type 0 where
  pub used : Bool
  pub id : List ℕ
  pub response : CommandResponse

abbrev pub blank_cache : Cache
blank_cache = record { used = false; id = replicate 16 0; response = blank_response }

pub record CommandDispatcher : Type 0 where
  pub topics : MqttTopics
  pub handlers : List ℕ
  pub handler_count : ℕ
  pub cache : List Cache
  pub cache_index : ℕ

-- The authorizer, the handlers, by the number of their object, the transport and the queue, over
-- their state `W`.
pub record DispatcherPorts (W : Type 0) : Type 0 where
  pub authorize : CommandRequest → W → Status
  pub handler_name : ℕ → Text
  pub handle : ℕ → CommandRequest → CommandResponse → W → Status × CommandResponse × W
  pub publish : MessageEnvelope → W → Status × W
  pub is_connected : W → Bool
  pub enqueue : MessageEnvelope → Bool → W → Status × W

unfoldable pub add_handler : ℕ → CommandDispatcher → Status × CommandDispatcher
add_handler h d = if leb command_handler_capacity d.handler_count then (no_resources, d) else (
  ok,
  record d {
    handlers = set d.handlers d.handler_count h;
    handler_count = add_size d.handler_count 1;
  },
)

-- The loop of `find_cached`; `equal` of CommandDispatcher.cpp compares as text_equal does.
unfoldable pub find_cached : List Cache → List ℕ → Option CommandResponse
find_cached [] id = none
find_cached (item ∷ items) id =
    let rest = find_cached items id in
    if item.used && text_equal (some item.id) (some id) 16 then some item.response else rest

-- The item that `cache` writes: 15 characters of the id at most, and the terminator.
abbrev pub cache_item : List ℕ → CommandResponse → Cache
cache_item id r =
    let n = length (c_text 15 id) in
    record { used = true; id = set (copy n id (replicate 16 0)) n 0; response = r }

unfoldable pub cache_response : List ℕ → CommandResponse → CommandDispatcher → CommandDispatcher
cache_response id r d = record d {
  cache = set d.cache d.cache_index (cache_item id r);
  cache_index = add_size d.cache_index 1 % idempotency_window;
}

-- static_cast<std::uint32_t>(status)
abbrev pub status_code : Status → ℕ
status_code ok = 0
status_code timeout = 1
status_code nack = 2
status_code bus_error = 3
status_code busy = 4
status_code io_error = 5
status_code unsupported = 6
status_code invalid_argument = 7
status_code not_found = 8
status_code no_resources = 9
status_code corrupt = 10
status_code not_ready = 11
status_code denied = 12
status_code aborted = 13

-- "id", "name", "value", "status" and "state"
abbrev pub id_key : List ℕ
id_key = 105 ∷ 100 ∷ []

abbrev pub name_key : List ℕ
name_key = 110 ∷ 97 ∷ 109 ∷ 101 ∷ []

abbrev pub value_key : List ℕ
value_key = 118 ∷ 97 ∷ 108 ∷ 117 ∷ 101 ∷ []

abbrev pub status_key : List ℕ
status_key = 115 ∷ 116 ∷ 97 ∷ 116 ∷ 117 ∷ 115 ∷ []

abbrev pub state_key : List ℕ
state_key = 115 ∷ 116 ∷ 97 ∷ 116 ∷ 101 ∷ []

-- `on_message` up to the lookup of the id; `none` where the message has no id or name that fits.
unfoldable pub parse_request : MessageEnvelope → Option CommandRequest
parse_request m =
    let bytes = take m.payload.size m.payload.data_bytes in
    let (has_id, id) = get_string (some id_key) (replicate 16 0) 16 bytes in
    let (has_name, name) = get_string (some name_key) (replicate 24 0) 24 bytes in
    let (has_value, value) = get_bool (some value_key) false bytes in
    if not has_id || not has_name
    then none
    else some
        (record { id = id; name = name; value = value; has_value = has_value; source = gateway })

-- The object of a response.
unfoldable pub write_response : List ℕ → CommandResponse → Bool × JsonWriter
write_response id r =
    both begin_object
      (both (field_string (some id_key) (some id)) (
        both (field_u32 (some status_key) (status_code r.status))
          (both (field_bool (some state_key) r.state) end_object)))
      (json_writer (replicate payload_capacity 0) payload_capacity)

module _ {W : Type 0} (ports : DispatcherPorts W) where
  -- The loop of `find_handler` over the handlers left.
  unfoldable pub find_handler : List ℕ → List ℕ → Option ℕ
  find_handler [] name = none
  find_handler (h ∷ hs) name =
      let rest = find_handler hs name in
      if text_equal (ports.handler_name h) (some name) 24 then some h else rest

  -- `respond` from the message on.
  unfoldable pub send : MessageEnvelope → W → W
  send message w =
      let (sent, w') = ports.publish message w in
      if not (ports.is_connected w)
      then (ports.enqueue message false w).1
      else if not (is_ok sent)
      then (ports.enqueue message false w').1
      else w'

  unfoldable pub respond : MqttTopics → List ℕ → CommandResponse → ℕ → W → W
  respond topics id r correlation w =
      let (written, writer) = write_response id r in
      let (built, topic) = build topics (replicate topic_capacity 0) command_response none in
      if not written
      then w
      else if not (is_ok built)
      then w
      else send
          (record {
            topic = topic;
            payload = record { data_bytes = writer.data_bytes; size = writer.position };
            qos = at_least_once;
            retain = false;
            correlation_id = correlation;
          })
          w

  -- `on_message` where the command is authorized.
  unfoldable pub dispatch : Option ℕ → CommandRequest → W → CommandResponse × W
  dispatch none request w = (record blank_response { status = not_found }, w)
  dispatch (some h) request w =
      let (status, response, w') = ports.handle h request blank_response w in
      (record response { status = status }, w')

  -- `on_message` where the id is not in the window.
  unfoldable pub execute : CommandRequest → CommandDispatcher → W → CommandResponse × W
  execute request d w =
      let allowed = ports.authorize request w in
      let done = dispatch (find_handler (take d.handler_count d.handlers) request.name) request w in
      if is_ok allowed then done else (record blank_response { status = allowed }, w)

  -- `on_message` for what find_cached gives.
  unfoldable pub answer :
      Option CommandResponse → CommandRequest → ℕ → CommandDispatcher → W → CommandDispatcher × W
  answer (some r) request correlation d w = (d, respond d.topics request.id r correlation w)
  answer none request correlation d w =
      let (r, w') = execute request d w in
      (cache_response request.id r d, respond d.topics request.id r correlation w')

  -- `on_message` for what was parsed.
  unfoldable pub receive : Option CommandRequest → ℕ → CommandDispatcher → W → CommandDispatcher × W
  receive none correlation d w =
      (d, respond d.topics [] (record blank_response { status = corrupt }) correlation w)
  receive (some request) correlation d w =
      answer (find_cached d.cache request.id) request correlation d w

  unfoldable pub on_message : MessageEnvelope → CommandDispatcher → W → CommandDispatcher × W
  on_message m d w = receive (parse_request m) m.correlation_id d w
