-- ===== src/Billing/Legacy.antt =====
-- db/exact_money.go: a record carries an amount both as a legacy float and exactly. The exact one
-- wins when both are set, and the float is recomputed from it.
use muhiya_workspace.Prelude.{
  ◌||◌, not, ◌&&◌, List, [], ◌∷◌, Result, ok, err, ◌>>=◌, ◌>>◌, if◌then◌else◌,
}
use muhiya_workspace.Prelude.Int.{pos, ltb_ℤ, eqb_ℤ}
use muhiya_workspace.Prelude.Float.{Float}
use muhiya_workspace.Money
use muhiya_workspace.Money.{NanoUsd}
use muhiya_workspace.Money.Legacy.{from_usd, from_credits, usd, credits}

pub data LegacyError : Type 0 where
  money : Money.Error → LegacyError
  used_exceeds_total : LegacyError

-- `if err != nil { return 0, err }`, with the error of the money package
abbrev pub lifted : Result Money.Error NanoUsd → Result LegacyError NanoUsd
lifted (ok n) = ok n
lifted (err e) = err (money e)

module _ (f : Float) where
  open f use {Value, zero, lt, eq}

  -- An amount in both representations.
  pub record Both : Type 0 where
    pub legacy : Value
    pub exact : NanoUsd

  -- `if exact == 0 && legacy != 0 { exact, err = convert(legacy) }`
  unfoldable pub exact_or :
      (Value → Result Money.Error NanoUsd) → Value → NanoUsd → Result LegacyError NanoUsd
  exact_or convert legacy exact =
      if eqb_ℤ exact (pos 0) && not (eq legacy zero) then lifted (convert legacy) else ok exact

  -- The common body of `normalizeBudgetWindowMoney`, `normalizeRequestLogMoney` and of one round of
  -- `normalizeModelMoney`.
  unfoldable pub normalize_usd : Both → Result LegacyError Both
  unfolding exact_or
  normalize_usd b = do
    (if ltb_ℤ b.exact (pos 0) || lt b.legacy zero then err (money Money.negative) else ok tt)
    exact ← exact_or (from_usd f) b.legacy b.exact
    ok (record { legacy = usd f exact; exact = exact })

  unfoldable pub normalize_model : List Both → Result LegacyError (List Both)
  unfolding normalize_usd
  normalize_model [] = ok []
  normalize_model (b ∷ pairs) = do
    b' ← normalize_usd b
    pairs' ← normalize_model pairs
    ok (b' ∷ pairs')

  pub record TopupMoney : Type 0 where
    pub credits_total : Value
    pub credits_used : Value
    pub amount : NanoUsd
    pub used : NanoUsd

  unfoldable pub normalize_topup : TopupMoney → Result LegacyError TopupMoney
  unfolding exact_or
  normalize_topup t = do
    (if ltb_ℤ t.amount (pos 0)
          || ltb_ℤ t.used (pos 0)
          || lt t.credits_total zero
          || lt t.credits_used zero
        then err (money Money.negative)
        else ok tt)
    amount ← exact_or (from_credits f) t.credits_total t.amount
    used ← exact_or (from_credits f) t.credits_used t.used
    (if ltb_ℤ amount used then err used_exceeds_total else ok tt)
    ok (record {
      credits_total = credits f amount;
      credits_used = credits f used;
      amount = amount;
      used = used;
    })
