-- ===== src/Tests.antt =====
-- Concrete runs of the theorems, one module for each part of the program.
mod Pricing
mod Money
mod Billing
mod Limiter
mod Handler
mod ByteBudget
mod Thinking
mod Reported
mod Login
mod Outbox
mod Media
mod Affinity
mod Catalog
mod Costing
mod Upstream
