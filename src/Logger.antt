-- ===== src/Logger.antt =====
-- Log scopes: pkg/coordinator/logger.
pub mod MemBuf
pub mod DbWriter
pub mod DbReader
