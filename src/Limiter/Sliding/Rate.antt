-- ===== src/Limiter/Sliding/Rate.antt =====
-- The admissions of one key over any run of its calls, against the limits per minute.
use muhiya_workspace.Prelude.{
  ℕ, ◌+◌, ◌≤◌, ◌<◌, ◌≡◌, refl, none, some, inl, inr, List, [], ◌∷◌, ◌++◌, sym, ◌∙◌, arith,
  if◌then◌else◌, ltb, leb, length, All, All-append, Bool-cases,
}
use muhiya_workspace.Prelude.Int.{
  ℤ, pos, negsuc, wrap64, to_word, of_word, pos_part, neg_part, ◌+64◌, ◌+ℤ◌,
}
use muhiya_workspace.Limiter.Sliding.{
  KeyLimiter, TokenRecord, CheckError, limited, throughput, rpm_exceeded, tpm_exceeded, is_recent,
  request_stamp, token_stamp, current_tpm, check_in_memory_limits, empty_limiter,
}
use muhiya_workspace.Limiter.Sliding.Minute.{
  drop_old, prune-drop_old, recent_weight, whole_weight, recent-le-whole, recent-drop_old,
  whole-drop_old, recent-append, whole-append,
}

-- An admitted call: its instant and the tokens of its prompt.
pub record Admitted : Type 0 where
  pub instant : ℕ
  pub prompt : ℕ

abbrev pub one : ℕ → ℕ
one _ = 1

abbrev pub token_weight : TokenRecord → ℕ
token_weight r = pos_part r.tokens

abbrev pub max_count : ℕ
max_count = 4611686018427387903

module _ (rpm tpm : ℕ) where
  -- A run of a key's calls, whose admissions stand newest first. The clock does not run back.
  pub data Run : ℕ → KeyLimiter → List Admitted → Type 0 where
    start : (now : ℕ) → Run now empty_limiter []
    refused :
        (before now prompt : ℕ) (kl kl' : KeyLimiter) (calls : List Admitted) (e : CheckError)
        → Run before kl calls
        → before ≤ now
        → prompt ≤ max_count
        → check_in_memory_limits kl now (pos rpm) (pos tpm) (pos prompt) ≡ (kl', some e)
        → Run now kl' calls
    admitted :
        (before now prompt : ℕ) (kl kl' : KeyLimiter) (calls : List Admitted)
        → Run before kl calls
        → before ≤ now
        → prompt ≤ max_count
        → check_in_memory_limits kl now (pos rpm) (pos tpm) (pos prompt) ≡ (kl', none)
        → Run now kl' (record { instant = now; prompt = prompt } ∷ calls)

  -- With each admitted call, those of the minute before it stay within both limits.
  unfoldable pub Respects : List Admitted → Type 0
  Respects [] = Unit
  Respects (c ∷ calls) =
      (1 + recent_weight (λ a. a.instant) (λ _. 1) c.instant calls ≤ rpm)
      × (c.prompt + recent_weight (λ a. a.instant) (λ a. a.prompt) c.instant calls ≤ tpm)
      × Respects calls

-- A window whose tokens are counts, at most `tpm` in all.
unfoldable pub IsWithin : ℕ → KeyLimiter → Type 0
IsWithin tpm kl =
    All (λ r. neg_part (TokenRecord.tokens r) ≡ 0) kl.tokens
    × (whole_weight token_stamp token_weight kl.tokens ≤ tpm)

drop_old-All :
    {A : Type 0} (P : A → Type 0) (stamp : A → ℕ) (now : ℕ) (rs : List A)
    → All P rs
    → All P (drop_old stamp now rs)
unfolding drop_old
drop_old-All P stamp now [] h = h
drop_old-All P stamp now (r ∷ rs) (p, h) = elim (Bool-cases (is_recent now (stamp r))) [
  | inl recent ↦ rw recent (p, h)
  | inr old ↦ rw old (drop_old-All P stamp now rs h)
]

-- Counts that fit add up as they are.
count_add :
    (a : ℕ) (z : ℤ)
    → neg_part z ≡ 0
    → a + pos_part z ≤ 9223372036854775807
    → pos a +64 z ≡ pos (a + pos_part z)
unfolding ◌+64◌ wrap64 to_word of_word ◌+ℤ◌
count_add a (pos n) h b = ground arith
count_add a (negsuc n) h b = ground (arith, h)

current_tpm_lem :
    (sum : ℕ) (ts : List TokenRecord)
    → All (λ r. neg_part (TokenRecord.tokens r) ≡ 0) ts
    → sum + whole_weight token_stamp token_weight ts ≤ max_count
    → current_tpm (pos sum) ts ≡ pos (sum + whole_weight token_stamp token_weight ts)
unfolding current_tpm whole_weight
current_tpm_lem sum [] h b = ground arith
current_tpm_lem sum (t ∷ ts) (p, h) b =
    rw (count_add sum t.tokens p (omega (arith, b)))
      (ground (arith, current_tpm_lem (sum + token_weight t) ts h (omega (arith, b))))

total_tpm :
    (ts : List TokenRecord)
    → All (λ r. neg_part (TokenRecord.tokens r) ≡ 0) ts
    → whole_weight token_stamp token_weight ts ≤ max_count
    → current_tpm (pos 0) ts ≡ pos (whole_weight token_stamp token_weight ts)
total_tpm ts h b = ground (arith, current_tpm_lem 0 ts h (omega (arith, b)))

whole-length :
    {A : Type 0} (stamp : A → ℕ) (rs : List A) → whole_weight stamp (λ _. 1) rs ≡ length rs
unfolding whole_weight
whole-length stamp [] = refl
whole-length stamp (r ∷ rs) = ground (arith, whole-length stamp rs)

-- The window after an admission.
admit : ℕ → ℕ → KeyLimiter → KeyLimiter
admit now prompt kl = record {
  requests = kl.requests ++ (now ∷ []);
  tokens =
      if ltb 0 prompt
      then kl.tokens ++ (record { timestamp = now; tokens = pos prompt } ∷ [])
      else kl.tokens;
}

-- The window after the pruning.
pruned : ℕ → KeyLimiter → KeyLimiter
pruned now kl = record {
  requests = drop_old request_stamp now kl.requests;
  tokens = drop_old token_stamp now kl.tokens;
}

-- What a call does to a window that is within the limit: it prunes and, within both limits, adds.
check_lem :
    (kl : KeyLimiter) (now rpm tpm prompt : ℕ)
    → 0 < rpm
    → 0 < tpm
    → tpm ≤ max_count
    → prompt ≤ max_count
    → IsWithin tpm kl
    → (check_in_memory_limits kl now (pos rpm) (pos tpm) (pos prompt)) ≡ (
        if leb rpm (length (drop_old request_stamp now kl.requests))
        then (pruned now kl, some (limited throughput rpm_exceeded))
        else if ltb tpm
            (whole_weight token_stamp token_weight (drop_old token_stamp now kl.tokens) + prompt)
        then (pruned now kl, some (limited throughput tpm_exceeded))
        else (admit now prompt (pruned now kl), none))
unfolding check_in_memory_limits pruned IsWithin admit
check_lem kl now rpm tpm prompt hr ht bt bp (nonneg, within) =
    let w = whole-drop_old token_stamp token_weight now kl.tokens in
    let s =
      total_tpm (drop_old token_stamp now kl.tokens)
        (drop_old-All _ token_stamp now kl.tokens nonneg) (omega arith) in
    let f =
      count_add (whole_weight token_stamp token_weight (drop_old token_stamp now kl.tokens))
        (pos prompt) refl (omega arith) in
    rw
      (prune-drop_old request_stamp now kl.requests, prune-drop_old token_stamp now kl.tokens, s, f)
      (ground arith)

module _ (rpm tpm : ℕ) (hr : 0 < rpm) (ht : 0 < tpm) (bt : tpm ≤ max_count) where
  refused_lem :
      (kl kl' : KeyLimiter) (now prompt : ℕ) (e : CheckError)
      → prompt ≤ max_count
      → IsWithin tpm kl
      → check_in_memory_limits kl now (pos rpm) (pos tpm) (pos prompt) ≡ (kl', some e)
      → kl' ≡ pruned now kl
  refused_lem kl kl' now prompt e bp w h =
      ground (arith, check_lem kl now rpm tpm prompt hr ht bt bp w, h)

  admitted_lem :
      (kl kl' : KeyLimiter) (now prompt : ℕ)
      → prompt ≤ max_count
      → IsWithin tpm kl
      → check_in_memory_limits kl now (pos rpm) (pos tpm) (pos prompt) ≡ (kl', none)
      → (length (drop_old request_stamp now kl.requests) < rpm)
        × (whole_weight token_stamp token_weight (drop_old token_stamp now kl.tokens) + prompt
            ≤ tpm)
        × (kl' ≡ admit now prompt (pruned now kl))
  admitted_lem kl kl' now prompt bp w h =
      ground (arith, check_lem kl now rpm tpm prompt hr ht bt bp w, h)

  -- What a run leaves behind: the window holds what was admitted, as far as it is recent.
  record IsAccounted (now : ℕ) (kl : KeyLimiter) (calls : List Admitted) : Type 0 where
    within : IsWithin tpm kl
    counted :
        (later : ℕ)
        → now ≤ later
        → recent_weight (λ a. a.instant) (λ _. 1) later calls
          ≡ recent_weight request_stamp (λ _. 1) later kl.requests
    summed :
        (later : ℕ)
        → now ≤ later
        → recent_weight (λ a. a.instant) (λ a. a.prompt) later calls
          ≡ recent_weight token_stamp token_weight later kl.tokens

  pruned-IsAccounted :
      (before now : ℕ) (kl : KeyLimiter) (calls : List Admitted)
      → before ≤ now
      → IsAccounted before kl calls
      → IsAccounted now (pruned now kl) calls
  unfolding pruned IsWithin
  pruned-IsAccounted before now kl calls h a = record {
    within = (
      drop_old-All _ token_stamp now kl.tokens a.within.0,
      omega (arith, whole-drop_old token_stamp token_weight now kl.tokens, a.within.1),
    );
    counted = λ later l.
        a.counted later (omega arith)
        ∙ sym (recent-drop_old request_stamp (λ _. 1) now later kl.requests l);
    summed = λ later l.
        a.summed later (omega arith)
        ∙ sym (recent-drop_old token_stamp token_weight now later kl.tokens l);
  }

  admit-IsAccounted :
      (now prompt : ℕ) (kl : KeyLimiter) (calls : List Admitted)
      → whole_weight token_stamp token_weight kl.tokens + prompt ≤ tpm
      → IsAccounted now kl calls
      → IsAccounted now (admit now prompt kl) (record { instant = now; prompt = prompt } ∷ calls)
  unfolding admit IsWithin recent_weight
  admit-IsAccounted now prompt kl calls h a = record {
    within = elim (Bool-cases (ltb 0 prompt)) [
      | inl some_tokens ↦ rw some_tokens (
        All-append _ kl.tokens _ a.within.0 (refl, tt),
        omega (
          arith,
          whole-append token_stamp token_weight kl.tokens
              (record { timestamp = now; tokens = pos prompt }),
          h,
        ),
      )
      | inr no_tokens ↦ rw no_tokens a.within
    ];
    counted = λ later l.
        ground
          (arith, a.counted later l, recent-append request_stamp (λ _. 1) later kl.requests now);
    summed = λ later l. ground (
      arith,
      a.summed later l,
      recent-append token_stamp token_weight later kl.tokens
          (record { timestamp = now; tokens = pos prompt }),
    );
  }

  Run-IsAccounted :
      {now : ℕ} {kl : KeyLimiter} {calls : List Admitted}
      → Run rpm tpm now kl calls
      → IsAccounted now kl calls × Respects rpm tpm calls
  unfolding Respects IsWithin recent_weight whole_weight pruned
  Run-IsAccounted (start now) =
      (record { within = (tt, ground arith); counted = λ _ _. refl; summed = λ _ _. refl }, tt)
  Run-IsAccounted (refused before now prompt kl kl' calls e run h bp step) =
      let (a, r) = Run-IsAccounted run in
      (
        rw (refused_lem kl kl' now prompt e bp a.within step)
            (pruned-IsAccounted before now kl calls h a),
        r,
      )
  Run-IsAccounted (admitted before now prompt kl kl' calls run h bp step) =
      let (a, r) = Run-IsAccounted run in
      let (under, sum_under, after) = admitted_lem kl kl' now prompt bp a.within step in
      let p = pruned-IsAccounted before now kl calls h a in
      (
        rw after (admit-IsAccounted now prompt (pruned now kl) calls sum_under p),
        (
          omega (
            arith,
            p.counted now (omega arith),
            recent-le-whole request_stamp (λ _. 1) now (pruned now kl).requests,
            whole-length request_stamp (pruned now kl).requests,
            under,
          ),
          omega (
            arith,
            p.summed now (omega arith),
            recent-le-whole token_stamp token_weight now (pruned now kl).tokens,
            sum_under,
          ),
          r,
        ),
      )

-- In every run of a key's calls from an empty window, under positive limits (the tokens' at most
-- 2^62 - 1, as each prompt), with a clock that does not run back: each admitted call, with those
-- admitted in the minute before it, stays within the requests and the tokens per minute.
pub admissions_respect_limits :
    (rpm tpm : ℕ) {now : ℕ} {kl : KeyLimiter} {calls : List Admitted}
    → 0 < rpm
    → 0 < tpm
    → tpm ≤ max_count
    → Run rpm tpm now kl calls
    → Respects rpm tpm calls
admissions_respect_limits rpm tpm hr ht bt run = (Run-IsAccounted rpm tpm hr ht bt run).1
