-- ===== src/Reported/Once.antt =====
-- A cache write that an upstream reports in two shapes is priced once.
use muhiya_workspace.Prelude.{ℕ, ◌+◌, leb, if◌then◌else◌}
use muhiya_workspace.Prelude.Int.{ℤ, pos, pos_part, ltb_ℤ}
use muhiya_workspace.Pricing.Usage.{ReportedUsage}

-- what is priced as cache writes
abbrev pub priced_writes : ReportedUsage → ℕ
priced_writes r =
    pos_part r.cache_write_tokens
    + pos_part r.cache_write_5m_tokens
    + pos_part r.cache_write_1h_tokens

unfoldable pub larger : ℕ → ℕ → ℕ
larger a b = if leb a b then b else a

-- the remainder as the Anthropic dialect takes it
abbrev positive : ℤ → ℤ
positive z = if ltb_ℤ (pos 0) z then z else pos 0
