-- ===== src/Tsgo/Json.antt =====
-- source/fastlint/tsgo/json.cc: a JSON parser and a JSON writer.
pub mod Strings
pub mod Value
pub mod Numbers
pub mod Parse
pub mod Writer
pub mod Written
pub mod Steps
pub mod RoundTrip
mod Examples
