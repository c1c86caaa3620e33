-- ===== src/Limiter/Sliding/Minute.antt =====
-- Over any run of a key's calls, the requests and tokens admitted in a minute stay within the limits.
use muhiya_workspace.Prelude.{
  ℕ, suc, ◌+◌, ◌≤◌, ◌≡◌, refl, inl, inr, List, [], ◌∷◌, ◌++◌, arith, if◌then◌else◌, length,
  Bool-cases,
}
use muhiya_workspace.Limiter.Sliding.{is_recent, drop, prune_index, prune}

module _ {A : Type 0} (stamp : A → ℕ) where
  -- The records from the first recent one on.
  unfoldable pub drop_old : ℕ → List A → List A
  drop_old now [] = []
  drop_old now (r ∷ rs) = if is_recent now (stamp r) then r ∷ rs else drop_old now rs

  prune_index_lem :
      (now total i : ℕ) (r : A) (rs : List A)
      → total ≡ i + suc (length rs)
      → (k : ℕ) × (prune_index stamp now total i (r ∷ rs) ≡ i + k)
        × (drop k (r ∷ rs) ≡ drop_old now (r ∷ rs))
  unfolding prune_index drop drop_old
  prune_index_lem now total i r [] e = elim (Bool-cases (is_recent now (stamp r))) [
    | inl recent ↦ (0, ground (arith, recent), ground (arith, recent))
    | inr old ↦ (1, ground (arith, old), ground (arith, old))
  ]
  prune_index_lem now total i r (s ∷ rest) e =
      let (k, index, dropped) = prune_index_lem now total (i + 1) s rest (omega (arith, e)) in
      elim (Bool-cases (is_recent now (stamp r))) [
        | inl recent ↦ (0, ground (arith, recent), ground (arith, recent))
        | inr old ↦ (suc k, ground (arith, old, index, e), ground (arith, old, dropped))
      ]

  -- The loop over the indices keeps exactly the records from the first recent one on.
  pub prune-drop_old : (now : ℕ) (rs : List A) → prune stamp now rs ≡ drop_old now rs
  unfolding prune drop_old drop
  prune-drop_old now [] = refl
  prune-drop_old now (r ∷ rs) =
      let (k, e, d) = prune_index_lem now (suc (length rs)) 0 r rs (omega arith) in
      let e' : prune_index stamp now (suc (length rs)) 0 (r ∷ rs) ≡ k = omega (arith, e) in rw e' d

  module _ (weight : A → ℕ) where
    -- The weight of the records that are recent at an instant, and of all.
    unfoldable pub recent_weight : ℕ → List A → ℕ
    recent_weight now [] = 0
    recent_weight now (r ∷ rs) =
        (if is_recent now (stamp r) then weight r else 0) + recent_weight now rs

    unfoldable pub whole_weight : List A → ℕ
    whole_weight [] = 0
    whole_weight (r ∷ rs) = weight r + whole_weight rs

    pub recent-le-whole : (now : ℕ) (rs : List A) → recent_weight now rs ≤ whole_weight rs
    unfolding recent_weight whole_weight
    recent-le-whole now [] = omega arith
    recent-le-whole now (r ∷ rs) = ground (arith, recent-le-whole now rs)

    pub recent-drop_old :
        (now later : ℕ) (rs : List A)
        → now ≤ later
        → recent_weight later (drop_old now rs) ≡ recent_weight later rs
    unfolding recent_weight drop_old
    recent-drop_old now later [] h = refl
    recent-drop_old now later (r ∷ rs) h = ground (arith, recent-drop_old now later rs h)

    pub whole-drop_old : (now : ℕ) (rs : List A) → whole_weight (drop_old now rs) ≤ whole_weight rs
    unfolding whole_weight drop_old
    whole-drop_old now [] = omega arith
    whole-drop_old now (r ∷ rs) = ground (arith, whole-drop_old now rs)

    pub recent-append :
        (now : ℕ) (rs : List A) (r : A)
        → recent_weight now (rs ++ (r ∷ []))
          ≡ recent_weight now rs + (if is_recent now (stamp r) then weight r else 0)
    unfolding recent_weight
    recent-append now [] r = ground arith
    recent-append now (s ∷ rs) r = ground (arith, recent-append now rs r)

    pub whole-append :
        (rs : List A) (r : A) → whole_weight (rs ++ (r ∷ [])) ≡ whole_weight rs + weight r
    unfolding whole_weight
    whole-append [] r = ground arith
    whole-append (s ∷ rs) r = ground (arith, whole-append rs r)
