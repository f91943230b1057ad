-- ===== src/Worker.antt =====
-- services/src/cadns/worker: what is made of the resolvers' answers to one domain, and the service
-- that takes domains from the queue.
pub mod Pipeline
pub mod Store
pub mod Endpoints
pub mod Regions
pub mod Assign
pub mod Measure
pub mod Service
