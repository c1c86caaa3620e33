-- ===== src/Pricing.antt =====
-- pricing/: exact token prices. Usage is normalised, a rule set chooses the rates and the time
-- window, a quote adds up one rounded cost for each token class, and a search finds the largest
-- output allowance that a budget affords.
pub mod Usage
pub mod Rates
pub mod Fault
pub mod Window
pub mod RuleSet
pub mod Quote
