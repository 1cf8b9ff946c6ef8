-- ===== src/Events.antt =====
-- pkg/events/kafka.go: what the services say to one another over the broker.
pub mod Payload
pub mod Producer
pub mod Consumer
mod Examples
