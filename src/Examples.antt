-- ===== src/Examples.antt =====
-- Concrete runs: a map for the parameter of the storages, and the theorems at concrete inputs.
mod Table
mod Algorithm
mod Memory
mod Breaker
mod Outages
mod Failover
mod FailoverRedis
mod Replies
mod Retry
mod Limiter
mod Readiness
mod Requests
mod Service
mod Shared
mod Redis
mod Lua
mod Apps
mod Clock
