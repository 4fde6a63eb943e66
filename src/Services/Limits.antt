-- ===== src/Services/Limits.antt =====
-- services/Limits.hpp: the fixed capacities.
use agile_firmware_framework.Prelude.{ℕ}

abbrev pub topic_capacity : ℕ
topic_capacity = 96

abbrev pub payload_capacity : ℕ
payload_capacity = 256

abbrev pub config_key_capacity : ℕ
config_key_capacity = 24

abbrev pub config_value_capacity : ℕ
config_value_capacity = 64

abbrev pub config_record_capacity : ℕ
config_record_capacity = 24

abbrev pub command_handler_capacity : ℕ
command_handler_capacity = 16

abbrev pub health_source_capacity : ℕ
health_source_capacity = 12

abbrev pub network_link_capacity : ℕ
network_link_capacity = 2

abbrev pub indication_source_count : ℕ
indication_source_count = 6

abbrev pub ota_chunk_bytes : ℕ
ota_chunk_bytes = 1024

abbrev pub offline_queue_depth : ℕ
offline_queue_depth = 32

abbrev pub idempotency_window : ℕ
idempotency_window = 8

abbrev pub diagnostic_counter_count : ℕ
diagnostic_counter_count = 32

abbrev pub diagnostic_gauge_count : ℕ
diagnostic_gauge_count = 16

abbrev pub fault_ring_capacity : ℕ
fault_ring_capacity = 8

abbrev pub device_id_capacity : ℕ
device_id_capacity = 24
