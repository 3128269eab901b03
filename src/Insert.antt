-- ===== src/Insert.antt =====
-- app/vminsert: the parsers of the text protocols that rows arrive in.
mod Examples
pub mod Lines
pub mod Floats
pub mod Graphite
pub mod Opentsdb
pub mod Influx
