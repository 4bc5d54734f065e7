-- ===== src/LoadBalancer.antt =====
-- internal/loadbalancer: backends, strategies, the dialled server and the health check.
pub mod Backend
pub mod History
pub mod Strategy
pub mod Server
pub mod HealthCheck
pub mod Registry
mod Tests
