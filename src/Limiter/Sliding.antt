-- ===== src/Limiter/Sliding.antt =====
-- The in-memory sliding window of one key (`checkInMemoryLimits`), and the map of all windows.
-- An instant is a number of nanoseconds.
pub mod Minute
pub mod Rate
use muhiya_workspace.Prelude.{
  ℕ, zero, suc, ◌+◌, ◌-◌, Bool, true, false, ◌&&◌, Option, none, some, List, [], ◌∷◌, ◌++◌,
  if◌then◌else◌, ltb, ◌==◌, length,
}
use muhiya_workspace.Prelude.Int.{ℤ, pos, ltb_ℤ, leb_ℤ, ◌+64◌}
use muhiya_workspace.Prelude.Text.{Text}
use muhiya_workspace.Prelude.Assoc

-- Why a request is refused, and how the client should react.
pub data LimitKind : Type 0 where
  throughput budget suspended infrastructure : LimitKind

pub data Cause : Type 0 where
  redis_unavailable redis_malformed owner_not_found plan_not_found inactive : Cause
  lookup_failed : Text → Cause
  window_spent : Text → Cause
  rpm_exceeded tpm_exceeded : Cause

-- A `*LimitError`, or an error with no classification.
pub data CheckError : Type 0 where
  limited : LimitKind → Cause → CheckError
  plain : Cause → CheckError

unfoldable pub kind_of : CheckError → LimitKind
kind_of (limited kind _) = kind
kind_of (plain _) = throughput

pub record TokenRecord : Type 0 where
  pub timestamp : ℕ
  pub tokens : ℤ

pub record KeyLimiter : Type 0 where
  pub requests : List ℕ
  pub tokens : List TokenRecord

-- sixty seconds
abbrev pub minute : ℕ
minute = 60_000_000_000

-- `timestamp.After(now.Add(-60 * time.Second))`
abbrev pub is_recent : ℕ → ℕ → Bool
is_recent now timestamp = ltb now (timestamp + minute)

unfoldable pub drop {ℓ} : {A : Type ℓ} → ℕ → List A → List A
drop zero xs = xs
drop (suc n) [] = []
drop (suc n) (x ∷ xs) = drop n xs

module _ {A : Type 0} (stamp : A → ℕ) (now : ℕ) where
  -- The loop that finds the first record to keep, at index `i` of `total` records.
  unfoldable pub prune_index : ℕ → ℕ → List A → ℕ
  prune_index total i [] = 0
  prune_index total i (r ∷ rs) =
      let later = prune_index total (i + 1) rs in
      if is_recent now (stamp r) then i else if i == total - 1 then total else later

  unfoldable pub prune : List A → List A
  unfolding prune_index drop
  prune rs = drop (prune_index (length rs) 0 rs) rs

abbrev pub request_stamp : ℕ → ℕ
request_stamp t = t

abbrev pub token_stamp : TokenRecord → ℕ
token_stamp r = r.timestamp

unfoldable pub current_tpm : ℤ → List TokenRecord → ℤ
current_tpm sum [] = sum
current_tpm sum (t ∷ ts) = current_tpm (sum +64 t.tokens) ts

-- `checkInMemoryLimits` on the key's window: the window that it leaves, and the error if any.
unfoldable pub check_in_memory_limits : KeyLimiter → ℕ → ℤ → ℤ → ℤ → KeyLimiter × Option CheckError
unfolding prune current_tpm
check_in_memory_limits kl now rpm_limit tpm_limit prompt_tokens =
    let requests = prune request_stamp now kl.requests in
    let tokens = prune token_stamp now kl.tokens in
    let pruned : KeyLimiter = record { requests = requests; tokens = tokens } in
    let admitted : KeyLimiter = record {
      requests = requests ++ (now ∷ []);
      tokens =
          if ltb_ℤ (pos 0) prompt_tokens
          then tokens ++ (record { timestamp = now; tokens = prompt_tokens } ∷ [])
          else tokens;
    } in
    if ltb_ℤ (pos 0) rpm_limit && leb_ℤ rpm_limit (pos (length requests))
    then (pruned, some (limited throughput rpm_exceeded))
    else if ltb_ℤ (pos 0) tpm_limit
        && ltb_ℤ tpm_limit (current_tpm (pos 0) tokens +64 prompt_tokens)
    then (pruned, some (limited throughput tpm_exceeded))
    else (admitted, none)

abbrev pub empty_limiter : KeyLimiter
empty_limiter = record { requests = []; tokens = [] }

-- `getLimiter`: the key's window, which is made when the key is new.
unfoldable pub get_limiter : Text → List (Text × KeyLimiter) → KeyLimiter
unfolding Assoc.lookup
get_limiter key limiters = elim (Assoc.lookup key limiters) [ none ↦ empty_limiter | some kl ↦ kl ]

last_stamp : {A : Type 0} → (A → ℕ) → List A → ℕ → ℕ
last_stamp stamp [] latest = latest
last_stamp stamp (r ∷ []) latest = if ltb latest (stamp r) then stamp r else latest
last_stamp stamp (r ∷ s ∷ rs) latest = last_stamp stamp (s ∷ rs) latest

-- The instant of a window's last activity; 0 is the zero time.
unfoldable pub last_activity : KeyLimiter → ℕ
unfolding last_stamp
last_activity kl = last_stamp token_stamp kl.tokens (last_stamp request_stamp kl.requests 0)

-- One round of `sweepInMemoryLimiters`, which drops the windows idle for five minutes.
unfoldable pub sweep : ℕ → List (Text × KeyLimiter) → List (Text × KeyLimiter)
unfolding last_activity
sweep now [] = []
sweep now ((key, kl) ∷ limiters) =
    let rest = sweep now limiters in
    if ltb (last_activity kl + 300_000_000_000) now then rest else (key, kl) ∷ rest
