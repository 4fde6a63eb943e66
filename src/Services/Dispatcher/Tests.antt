-- ===== src/Services/Dispatcher/Tests.antt =====
-- A command with the id "7" and the name "on", sent twice.
use agile_firmware_framework.Prelude.{
  ℕ, suc, ◌≡◌, refl, true, false, some, [], ◌∷◌, replicate, arith,
}
use agile_firmware_framework.Uhal.{ok}
use agile_firmware_framework.Libraries.Json.Scanner.{
  get_string, get_bool, string_at, copy_string, find_loop, after_key, after_colon, skip_blanks,
  matches,
}
use agile_firmware_framework.Services.Messages.{MessageEnvelope, at_least_once}
use agile_firmware_framework.Services.Dispatcher.{
  gateway, CommandRequest, CommandResponse, CommandDispatcher, DispatcherPorts, blank_cache,
  parse_request, respond, on_message,
}
use agile_firmware_framework.Services.Dispatcher.Window.{on_message-twice}

-- {"id":"7","name":"on"}
abbrev command : ℕ → MessageEnvelope
command correlation = record {
  topic = [];
  payload = record {
    data_bytes =
        123 ∷ 34 ∷ 105 ∷ 100 ∷ 34 ∷ 58 ∷ 34 ∷ 55 ∷ 34 ∷ 44 ∷ 34 ∷ 110 ∷ 97 ∷ 109 ∷ 101 ∷ 34 ∷ 58
        ∷ 34 ∷ 111 ∷ 110 ∷ 34 ∷ 125 ∷ [];
    size = 22;
  };
  qos = at_least_once;
  retain = false;
  correlation_id = correlation;
}

abbrev request : CommandRequest
request = record {
  id = 55 ∷ replicate 15 0;
  name = 111 ∷ 110 ∷ replicate 22 0;
  value = false;
  has_value = false;
  source = gateway;
}

abbrev dispatcher : CommandDispatcher
dispatcher = record {
  topics = record { site = some (115 ∷ []); device = some (100 ∷ []) };
  handlers = 3 ∷ replicate 15 0;
  handler_count = 1;
  cache = replicate 8 blank_cache;
  cache_index = 7;
}

-- The world counts the commands that were handled.
abbrev ports : DispatcherPorts ℕ
ports = record {
  authorize = λ request w. ok;
  handler_name = λ h. some (111 ∷ 110 ∷ 0 ∷ []);
  handle = λ h request response w. (ok, response, suc w);
  publish = λ message w. (ok, w);
  is_connected = λ w. true;
  enqueue = λ message allow_drop w. (ok, w);
}

parsed : (correlation : ℕ) → parse_request (command correlation) ≡ some request
unfolding parse_request get_string get_bool string_at copy_string find_loop after_key after_colon
    skip_blanks matches
parsed correlation = refl

on_message-twice_example :
    let d' = (on_message ports (command 1) dispatcher 0).0 in
    (r : CommandResponse) × (before : ℕ) × ((on_message ports (command 1) dispatcher 0).1
      ≡ respond ports dispatcher.topics (55 ∷ replicate 15 0) r 1 before)
    × (on_message ports (command 2) d' 5
        ≡ (d', respond ports dispatcher.topics (55 ∷ replicate 15 0) r 2 5))
on_message-twice_example =
    on_message-twice ports (command 1) (command 2) request request dispatcher 0 5
      (refl, omega arith) (parsed 1) (parsed 2) refl
