-- ===== src/Metering.antt =====
-- Metering: the consumer of metering events (accounting/consumer) and the component that books them
-- (accounting/component).
pub mod Event
pub mod Consumer
pub mod Delivery
pub mod Reading
mod Examples
