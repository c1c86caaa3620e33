-- ===== src/Outbox/Journal.antt =====
-- What the calls of the database were asked and what they answered, and counts of chosen logs.
use muhiya_workspace.Prelude.{
  length, ℕ, suc, ◌+◌, ◌≡◌, Bool, true, false, List, [], ◌∷◌, ◌++◌, arith, if◌then◌else◌,
}
use muhiya_workspace.Outbox.{Entry, Retrying, Event, enqueue, receive, attempt}

module _ {ℓ} {A : Type ℓ} where
  module _ (chosen : Entry A → Bool) where
    -- the number of chosen logs in a list, with the workers, among those taken and those tried
    abbrev pub count : List (Entry A) → ℕ
    count [] = 0
    count (e ∷ es) = let rest = count es in if chosen e then suc rest else rest

    abbrev pub held : List (Retrying A) → ℕ
    held [] = 0
    held (r ∷ workers) = let rest = held workers in if chosen r.entry then suc rest else rest

    abbrev pub taken : List (Entry A × Bool) → ℕ
    taken [] = 0
    taken ((e, false) ∷ journal) = taken journal
    taken ((e, true) ∷ journal) = let rest = taken journal in if chosen e then suc rest else rest

    abbrev pub tried : List (Entry A × Bool) → ℕ
    tried [] = 0
    tried ((e, _) ∷ journal) = let rest = tried journal in if chosen e then suc rest else rest

    -- the chosen logs that events give to the outbox
    abbrev pub given : List (Event A) → ℕ
    given [] = 0
    given (enqueue e ∷ events) = let rest = given events in if chosen e then suc rest else rest
    given (receive ∷ events) = given events
    given (attempt i ∷ events) = given events

    -- the attempts that are left to the workers for the chosen logs
    abbrev pub left : List (Retrying A) → ℕ
    left [] = 0
    left (r ∷ workers) =
        let rest = left workers in if chosen r.entry then suc (length r.waits) + rest else rest

    pub count-++ : (xs ys : List (Entry A)) → count (xs ++ ys) ≡ count xs + count ys
    count-++ [] ys = omega arith
    count-++ (e ∷ xs) ys = ground (arith, count-++ xs ys)

    pub held-++ : (xs ys : List (Retrying A)) → held (xs ++ ys) ≡ held xs + held ys
    held-++ [] ys = omega arith
    held-++ (r ∷ xs) ys = ground (arith, held-++ xs ys)

    pub left-++ : (xs ys : List (Retrying A)) → left (xs ++ ys) ≡ left xs + left ys
    left-++ [] ys = omega arith
    left-++ (r ∷ xs) ys = ground (arith, left-++ xs ys)

-- A call of the database that writes in the journal the log and whether the database has taken it.
abbrev pub journaled {ℓ κ} :
    {A : Type ℓ} {D : Type κ}
    → (D → Entry A → D × Bool)
    → D × List (Entry A × Bool)
    → Entry A
    → (D × List (Entry A × Bool)) × Bool
journaled call (d, journal) e = let (d', taken) = call d e in ((d', (e, taken) ∷ journal), taken)
