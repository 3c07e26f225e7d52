-- ===== src/Costs.antt =====
-- Time costs, control-plane/src/costs.ts and cost-sampler.ts: prices, the span that a tick or a
-- settlement accrues, the entries that it writes to the ledger, and the ledger itself (repo.ts).
-- Times are whole milliseconds and quotients are exact. A money amount is kept as the product that
-- the code computes: a price per a number of seconds, times a count.
pub mod Prices
pub mod Span
pub mod Accruals
pub mod Ledger
