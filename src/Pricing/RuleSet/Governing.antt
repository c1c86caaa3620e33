-- ===== src/Pricing/RuleSet/Governing.antt =====
-- Which window governs an instant, and when the governing window next changes.
use muhiya_workspace.Prelude.{
  ℕ, zero, suc, ◌+◌, ◌*◌, ◌-◌, ◌%◌, ◌<◌, ◌≡◌, ◌≢◌, refl, ◌⊎◌, inl, inr, true, false, Option, none,
  some, List, [], ◌∷◌, arith, All, All-map, In, Bool-cases, ◌==◌, sym,
}
use mathlib.Core.Option.{some-injective}
use muhiya_workspace.Prelude.Text.{
  Text, text_eq, text_lt, text_lt_trans, text_lt_irrefl, eq_of_text_eq, ne_of_text_eq,
}
use muhiya_workspace.Prelude.Int.{◌<ℤ◌, eq_of_parts}
use muhiya_workspace.Pricing.Window.{Window, Instant, matches}
use muhiya_workspace.Pricing.Window.Active.{IsActive, matches_iff}
use muhiya_workspace.Pricing.RuleSet.{
  RuleSet, beats, select_window, window_for, window_id, next_boundary_after, scan_minutes,
  has_no_windows,
}

-- No window of the list that matches the instant beats the selected one.
abbrev pub IsUnbeaten : Instant → List Window → Window → Type 0
IsUnbeaten at windows w = All (λ v. matches v at ≡ true → beats v (some w) ≡ false) windows

beats_trans :
    (c s v : Window) → beats c (some s) ≡ true → beats v (some s) ≡ false → beats v (some c) ≡ false
unfolding beats
beats_trans c s v h k = ground (arith, text_lt_trans v.id c.id s.id)

beats_irrefl : (c : Window) → beats c (some c) ≡ false
unfolding beats
beats_irrefl c = ground (arith, text_lt_irrefl c.id)

beats-none : (v : Window) → beats v none ≡ true
unfolding beats
beats-none v = refl

-- What the loop that starts from `selected` has found at its end: the old window or one of the
-- list, beaten by no match of the list and by nothing that did not beat the old one.
abbrev IsBest : Instant → List Window → Option Window → Option Window → Type 0
IsBest at windows selected none = (selected ≡ none) × All (λ v. matches v at ≡ false) windows
IsBest at windows selected (some w) =
    ((selected ≡ some w) ⊎ (In w windows × (matches w at ≡ true)))
    × IsUnbeaten at windows w
    × ((v : Window) → beats v selected ≡ false → beats v (some w) ≡ false)

module _ (at : Instant) (c : Window) (windows : List Window) where
  skip-IsBest :
      (selected result : Option Window)
      → matches c at ≡ false
      → IsBest at windows selected result
      → IsBest at (c ∷ windows) selected result
  skip-IsBest selected none h (e, rest) = (e, (h, rest))
  skip-IsBest selected (some w) h (inl e, un, tr) = (inl e, (λ m. cc, un), tr)
  skip-IsBest selected (some w) h (inr (m, mt), un, tr) = (inr (inr m, mt), (λ m. cc, un), tr)

  keep-IsBest :
      (selected result : Option Window)
      → beats c selected ≡ false
      → IsBest at windows selected result
      → IsBest at (c ∷ windows) selected result
  keep-IsBest none none h (e, rest) = absurd (cc (beats-none c))
  keep-IsBest (some s) none h (e, rest) = absurd (cc)
  keep-IsBest selected (some w) h (inl e, un, tr) = (inl e, (λ m. tr c h, un), tr)
  keep-IsBest selected (some w) h (inr (m, mt), un, tr) = (inr (inr m, mt), (λ m. tr c h, un), tr)

  take_unbeaten :
      (selected : Option Window) (v : Window)
      → beats c selected ≡ true
      → beats v selected ≡ false
      → beats v (some c) ≡ false
  take_unbeaten none v h k = absurd (cc (beats-none v))
  take_unbeaten (some s) v h k = beats_trans c s v h k

  take-IsBest :
      (selected result : Option Window)
      → matches c at ≡ true
      → beats c selected ≡ true
      → IsBest at windows (some c) result
      → IsBest at (c ∷ windows) selected result
  take-IsBest selected none m h (e, rest) = absurd (cc)
  take-IsBest selected (some w) m h (found, un, tr) = (
    inr (elim found [
      | inl e ↦ (inl (ground arith), rw (some-injective _ _ e) at m)
      | inr (i, mt) ↦ (inr i, mt)
    ]),
    (λ _. tr c (beats_irrefl c), un),
    λ v k. tr v (take_unbeaten selected v h k),
  )

select_window-IsBest :
    (at : Instant) (windows : List Window) (selected : Option Window)
    → IsBest at windows selected (select_window at windows selected)
unfolding select_window
select_window-IsBest at [] none = (refl, tt)
select_window-IsBest at [] (some w) = (inl refl, tt, λ v h. h)
select_window-IsBest at (c ∷ windows) selected = elim (Bool-cases (matches c at)) [
  | inr miss ↦
      rw miss (skip-IsBest at c windows selected _ miss (select_window-IsBest at windows selected))
  | inl hit ↦ elim (Bool-cases (beats c selected)) [
    | inl better ↦
        rw (hit, better)
          (take-IsBest at c windows selected _ hit better
            (select_window-IsBest at windows (some c)))
    | inr worse ↦
        rw (hit, worse)
          (keep-IsBest at c windows selected _ worse (select_window-IsBest at windows selected))
  ]
]

-- The window has a higher priority than the other, or the same and an id that is not above the
-- other's.
abbrev pub IsPreferred : Window → Window → Type 0
IsPreferred w v =
    (v.priority <ℤ w.priority) ⊎ ((v.priority ≡ w.priority) × (text_lt v.id w.id ≡ false))

-- What `WindowFor` finds: no window is active, or one that is and that is preferred to every active
-- one.
abbrev pub Governs : Instant → List Window → Option Window → Type 0
Governs at windows none = All (λ v. IsActive v at → ⊥) windows
Governs at windows (some w) =
    In w windows × IsActive w at × All (λ v. IsActive v at → IsPreferred w v) windows

unbeaten-IsPreferred : (v w : Window) → beats v (some w) ≡ false → IsPreferred w v
unfolding beats
unbeaten-IsPreferred v w h = ground (arith, h, eq_of_parts v.priority w.priority)

best-Governs :
    (at : Instant) (windows : List Window) (found : Option Window)
    → IsBest at windows none found
    → Governs at windows found
best-Governs at windows none (_, h) =
    All-map (λ v off on. absurd (ground (arith, off, (matches_iff v at).1 on))) windows h
best-Governs at windows (some w) (inl e, _, _) = absurd (cc)
best-Governs at windows (some w) (inr (m, mt), un, _) = (
  m,
  (matches_iff w at).0 mt,
  All-map (λ v kept on. unbeaten-IsPreferred v w (kept ((matches_iff v at).1 on))) windows un,
)

-- `WindowFor` returns nil exactly when no window is active at the instant, and otherwise an active
-- window of the rule set whose priority no active one exceeds and whose id is the least among those
-- of its priority, whatever the order of the windows.
pub window_for-Governs : (r : RuleSet) (at : Instant) → Governs at r.windows (window_for r at)
unfolding window_for
window_for-Governs r at = best-Governs at r.windows _ (select_window-IsBest at r.windows none)

abbrev pub minute_later : Instant → ℕ → Instant
minute_later cursor k = cursor + (k + 1) * 60_000_000_000

-- What a scan of `left` minutes finds: the first minute at which the governing window has another
-- id than `current`, or 0 when there is none.
abbrev pub IsFirstChange : RuleSet → Text → ℕ → Instant → Instant → Type 0
IsFirstChange r current left cursor found =
    ((found ≡ 0)
      × ((j : ℕ) → j < left → window_id (window_for r (minute_later cursor j)) ≡ current))
    ⊎ ((k : ℕ) × (k < left)
        × (found ≡ minute_later cursor k)
        × (window_id (window_for r found) ≢ current)
        × ((j : ℕ) → j < k → window_id (window_for r (minute_later cursor j)) ≡ current))

module _ (r : RuleSet) (current : Text) where
  unchanged_cons :
      (cursor left : ℕ)
      → window_id (window_for r (minute_later cursor 0)) ≡ current
      → ((j : ℕ)
          → j < left
          → window_id (window_for r (minute_later (cursor + 60_000_000_000) j)) ≡ current)
      → (j : ℕ) → j < suc left
      → window_id (window_for r (minute_later cursor j)) ≡ current
  unchanged_cons cursor left h rest zero lt = h
  unchanged_cons cursor left h rest (suc j) lt =
      let e : minute_later cursor (suc j) ≡ minute_later (cursor + 60_000_000_000) j =
        omega arith in
      rw e (rest j (omega arith))

  scan_minutes-IsFirstChange :
      (left : ℕ) (cursor : Instant)
      → IsFirstChange r current left cursor (scan_minutes r current left cursor)
  unfolding scan_minutes
  scan_minutes-IsFirstChange zero cursor = inl (refl, λ j lt. absurd (omega arith))
  scan_minutes-IsFirstChange (suc left) cursor =
      let next = cursor + 60_000_000_000 in
      let first : minute_later cursor 0 ≡ next = omega arith in
      elim (Bool-cases (text_eq (window_id (window_for r next)) current)) [
        | inr moved ↦
            rw (moved, scan_minutes)
              (inr
                (0, omega arith, sym first, ne_of_text_eq _ _ moved, λ j lt. absurd (omega arith)))
        | inl same ↦
            let here : window_id (window_for r (minute_later cursor 0)) ≡ current =
              rw first (eq_of_text_eq _ _ same) in
            rw (same, scan_minutes)
              (elim (scan_minutes-IsFirstChange left next) [
                | inl (z, all) ↦ inl (z, unchanged_cons cursor left here all)
                | inr (k, lt, e, ne, all) ↦
                    inr (suc k, omega arith, omega arith, ne, unchanged_cons cursor k here all)
              ])
      ]

-- For a rule set with windows and a non-zero instant, `NextBoundaryAfter` is the first whole minute
-- of the next eight days at which another window governs, with the same window at every minute
-- before it; it is the zero time only when none of those minutes has another window.
pub next_boundary_after_first :
    (r : RuleSet) (at : Instant)
    → has_no_windows r.windows ≡ false
    → at ≢ 0
    → IsFirstChange r
        (window_id (window_for r at))
        11_520
        (at - at % 60_000_000_000)
        (next_boundary_after r at)
unfolding next_boundary_after
next_boundary_after_first r at some_windows ne =
    let started : (at == 0) ≡ false = ground arith in
    rw (some_windows, started) (scan_minutes-IsFirstChange r _ 11_520 (at - at % 60_000_000_000))
