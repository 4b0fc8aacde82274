-- ===== src/Tests.antt =====
-- Concrete runs of the model: a small schema, calls and requests, on which the theorems are applied.
mod Schema
mod Orders
mod Drivers
mod Entry
mod Cache
mod Writers
mod System
mod Web
mod Text
mod Startup
mod Progress
mod Reordering
mod Journey
mod Recent
mod Signals
mod Statuses
mod Once
mod Settled
mod Hidden
mod Payload
