-- ===== src/Pricing/Window/Active.antt =====
-- The instants at which a window is active, spelled out.
use Prim.Native.Nat.{bit_and}
use muhiya_workspace.Prelude.{
  ℕ, ◌≡◌, ◌≤◌, ◌<◌, ◌⊎◌, ◌↔◌, refl, Bool, true, false, Option, none, some, arith, ◌==◌,
  if◌then◌else◌,
}
use muhiya_workspace.Prelude.Int.{ℤ, pos, ◌≤ℤ◌, ◌<ℤ◌, to_word}
use muhiya_workspace.Pricing.Window.{
  Window, Instant, minute_of_day, weekday_bit, covers_minute, before_start, past_end, matches,
}

abbrev pub IsFrom : Option Instant → Instant → Type 0
IsFrom none at = Unit
IsFrom (some from) at = from ≤ at

abbrev pub IsUntil : Option Instant → Instant → Type 0
IsUntil none at = Unit
IsUntil (some until) at = at < until

-- A minute of the day from the start on and before the end, where a window whose end is not after its
-- start reaches over midnight.
abbrev pub IsWithinDay : Window → ℤ → Type 0
IsWithinDay w minute =
    ((w.start_minute <ℤ w.end_minute) × (w.start_minute ≤ℤ minute) × (minute <ℤ w.end_minute))
    ⊎ ((w.end_minute ≤ℤ w.start_minute) × ((w.start_minute ≤ℤ minute) ⊎ (minute <ℤ w.end_minute)))

-- The instant is not the zero time, and lies in the window's effective span, on one of its days and
-- in its hours.
abbrev pub IsActive : Window → Instant → Type 0
IsActive w at =
    (0 < at)
    × IsFrom w.effective_from at
    × IsUntil w.effective_until at
    × (0 < bit_and (to_word w.weekday_mask) (weekday_bit at))
    × IsWithinDay w (pos (minute_of_day at))

IsFrom-iff :
    (from : Option Instant) (at : Instant) → (before_start from at ≡ false) ↔ IsFrom from at
IsFrom-iff none at = (λ _. tt, λ _. refl)
IsFrom-iff (some from) at = ground arith

IsUntil-iff :
    (until : Option Instant) (at : Instant) → (past_end until at ≡ false) ↔ IsUntil until at
IsUntil-iff none at = (λ _. tt, λ _. refl)
IsUntil-iff (some until) at = ground arith

covers_iff : (w : Window) (minute : ℤ) → (covers_minute w minute ≡ true) ↔ IsWithinDay w minute
unfolding covers_minute
covers_iff w minute = ground arith

gates :
    (a b c d e : Bool)
    → ((if a then false else if b then false else if c then false else if d then false else e)
        ≡ true)
      ↔ ((a ≡ false) × (b ≡ false) × (c ≡ false) × (d ≡ false) × (e ≡ true))
gates a b c d e = ground arith

positive_of : (n : ℕ) → (n == 0) ≡ false → 0 < n
positive_of n h = ground (arith, h)

pub matches_iff : (w : Window) (at : Instant) → (matches w at ≡ true) ↔ IsActive w at
unfolding matches
matches_iff w at =
    let from = IsFrom-iff w.effective_from at in
    let until = IsUntil-iff w.effective_until at in
    let covers = covers_iff w (pos (minute_of_day at)) in
    let day = bit_and (to_word w.weekday_mask) (weekday_bit at) in
    let chain =
      gates (at == 0) (before_start w.effective_from at) (past_end w.effective_until at) (day == 0)
        (covers_minute w (pos (minute_of_day at))) in
    (
      λ h.
          let (a, b, c, d, e) = chain.0 h in
          (positive_of at a, from.0 b, until.0 c, positive_of day d, covers.0 e),
      λ h.
          let (a, b, c, d, e) = h in
          chain.1 (ground (arith, a), from.1 b, until.1 c, ground (arith, d), covers.1 e),
    )
