-- ===== src/Examples.antt =====
-- Concrete inputs that satisfy the theorems' conditions, component by component.
mod Wire
mod Guest
mod Lifecycle
mod Managed
mod Power
mod Codec
mod Storage
mod Images
mod Requests
