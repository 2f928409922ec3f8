-- ===== src/Inventory.antt =====
-- The enrollment secrets of zentral/contrib/inventory.
pub mod Secrets
mod Examples
