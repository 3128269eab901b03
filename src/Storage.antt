-- ===== src/Storage.antt =====
-- lib/storage: the names of time series, the headers of their blocks, and the merge of blocks.
mod Examples
mod HeaderExamples
mod BlockExamples
pub mod TagValue
pub mod MetricName
pub mod Fields
pub mod Guarded
pub mod Tsid
pub mod BlockHeader
pub mod Metaindex
pub mod Block
