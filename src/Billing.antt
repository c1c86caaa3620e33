-- ===== src/Billing.antt =====
-- db/billing.go, db/billing_atomic.go and the queries of db/db.go that they rest on: budget windows,
-- spending, top-ups, and the settlement of a request in one transaction. A table is the list of its
-- rows, and a query is the function that its SQL text describes. Amounts are `int64`. An instant is a
-- number of nanoseconds.
pub mod Period
pub mod Legacy
pub mod Store
pub mod Settle
pub mod Reset
