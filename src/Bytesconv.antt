-- ===== src/Bytesconv.antt =====
-- bytesconv.go and the tables that bytesconv_table_gen.go generates.
pub mod Uint
pub mod Tables
pub mod Quote
pub mod HexInt
pub mod Ipv4
