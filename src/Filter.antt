-- ===== src/Filter.antt =====
-- lib/lib/base_filter.js and the filters of lib/filters. A filter's `process` returns nothing, the
-- message, or an array of messages; it may throw.
pub mod Base
pub mod Cache
pub mod Geoip
pub mod Grok
pub mod Regex
pub mod RegexHelper
pub mod ReverseDns
pub mod Simple
pub mod Split
pub mod HttpStatus
pub mod JsonFields
pub mod Multiline
pub mod SyslogPri
use node_logstash.Js.Value.{Fields}
use node_logstash.Prelude.{List}

pub data Processed : Type 0 where
  nothing : Processed
  one : Fields → Processed
  many : List Fields → Processed
