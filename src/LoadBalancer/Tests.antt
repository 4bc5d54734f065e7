-- ===== src/LoadBalancer/Tests.antt =====
-- Concrete backends and servers, and the theorems of the load balancer at them.
mod Data
mod Backends
mod Choices
mod Checks
mod Restarts
mod Pings
mod Tables
