-- ===== src/Libraries/Json.antt =====
-- components/libraries/serialization: JsonWriter (JsonWriter.hpp), which writes one object into a
-- buffer, and JsonScanner (JsonScanner.hpp), which looks up the fields of one.
pub mod Writer
pub mod Scanner
pub mod Text
pub mod Writes
pub mod Object
pub mod Lookup
pub mod Numbers
mod Tests
