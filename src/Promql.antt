-- ===== src/Promql.antt =====
-- app/vmselect/promql: the query language.
pub mod Ident
mod Examples
