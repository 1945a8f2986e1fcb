-- ===== src/Dns.antt =====
-- The DNS filter: src/modules/dns.
pub mod Domain
pub mod FastCache
pub mod DiskStore
pub mod Builtin
pub mod Filter
pub mod ListLine
pub mod Blocklist
pub mod Wire
pub mod Reply
pub mod Rebinding
pub mod ResponseCache
pub mod ClientPolicy
pub mod Handler
pub mod Examples
mod ReplyExamples
mod PolicyExamples
mod HandlerExamples
mod ListExamples
