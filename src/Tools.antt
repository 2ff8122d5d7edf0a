-- ===== src/Tools.antt =====
-- The programs of tools/: canfd_cli.cpp and canfd_term.cpp.
pub mod Payload
pub mod HexId
pub mod Term
pub mod Cli
