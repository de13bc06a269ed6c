-- ===== src/Wallet.antt =====
-- Wallets: pkg/coordinator/wallet.
pub mod Account
pub mod Sending
pub mod Manager
pub mod Pool
pub mod Blob
mod Examples
