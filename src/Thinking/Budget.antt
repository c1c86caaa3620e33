-- ===== src/Thinking/Budget.antt =====
-- A budget of thinking tokens leaves room for the answer.
use muhiya_workspace.Prelude.{ℕ, ◌+◌, ◌≡◌, ◌⊎◌, inl, inr, refl, ◌∙◌, false, some, arith, Bool-cases}
use muhiya_workspace.Prelude.Int.{ℤ, pos, negsuc, ◌<ℤ◌}
use muhiya_workspace.Prelude.Text.{Text, codes, text_eq}
use muhiya_workspace.Prelude.Json
use muhiya_workspace.Prelude.Json.{
  Json, Fields, field, end, str, obj, float, int, get-set_self, get-set_other, get-remove_self,
  get-remove_other,
}
use muhiya_workspace.Thinking.Anthropic.{
  drop_sampling, thinking_budget, max_tokens_of, at_most, apply_budget,
}

abbrev pub enabled_with : ℕ → Json
enabled_with budget = obj (
    field (codes "type") (str (codes "enabled"))
      (field (codes "budget_tokens") (int (pos budget)) end))

at_most_above : (z : ℤ) (budget : ℕ) → at_most z budget ≡ false → pos budget <ℤ z
unfolding at_most
at_most_above (pos n) budget h = ground (arith, h)
at_most_above (negsuc n) budget h = cc

-- a number that is read as larger than a budget stands in the body as a decoded number
max_tokens_float :
    (body : Fields) (budget : ℕ)
    → at_most (max_tokens_of body) budget ≡ false
    → Json.get (codes "max_tokens") body ≡ some (float (max_tokens_of body))
unfolding max_tokens_of at_most
max_tokens_float body budget h = ground (arith, h)

get-drop_sampling :
    (k : Text) (body : Fields)
    → text_eq (codes "top_k") k ≡ false
    → text_eq (codes "top_p") k ≡ false
    → text_eq (codes "temperature") k ≡ false
    → Json.get k (drop_sampling body) ≡ Json.get k body
unfolding drop_sampling
get-drop_sampling k body hk hp ht =
    get-remove_other (codes "top_k") k _ hk
    ∙ get-remove_other (codes "top_p") k _ hp
    ∙ get-remove_other (codes "temperature") k body ht

-- the body before `max_tokens` is looked at
configured : ℕ → Fields → Fields
configured budget body = drop_sampling (Json.set (codes "thinking") (enabled_with budget) body)

Fits : ℕ → Fields → Type 0
Fits budget body =
    (Json.get (codes "thinking") body ≡ some (enabled_with budget))
    × (m : ℤ) × ((Json.get (codes "max_tokens") body ≡ some (float m))
        ⊎ (Json.get (codes "max_tokens") body ≡ some (int m)))
    × (pos budget <ℤ m)

configured_thinking :
    (budget : ℕ) (body : Fields)
    → Json.get (codes "thinking") (configured budget body) ≡ some (enabled_with budget)
unfolding configured text_eq
configured_thinking budget body =
    get-drop_sampling (codes "thinking") _ refl refl refl
    ∙ get-set_self (codes "thinking") (enabled_with budget) body

raised :
    (budget : ℕ) (body : Fields)
    → Fits budget
        (Json.set (codes "max_tokens") (int (pos (budget + 4096))) (configured budget body))
unfolding Fits text_eq
raised budget body = (
  get-set_other (codes "max_tokens") (codes "thinking") _ _ refl ∙ configured_thinking budget body,
  pos (budget + 4096),
  inr (get-set_self (codes "max_tokens") _ _),
  omega arith,
)

kept :
    (budget : ℕ) (body : Fields)
    → at_most (max_tokens_of (configured budget body)) budget ≡ false
    → Fits budget (configured budget body)
unfolding Fits
kept budget body h = (
  configured_thinking budget body,
  max_tokens_of (configured budget body),
  inl (max_tokens_float (configured budget body) budget h),
  at_most_above (max_tokens_of (configured budget body)) budget h,
)

-- Where thinking is given a budget, the body that reaches the provider enables thinking with that
-- budget and asks for strictly more tokens than the budget.
pub budget_below_max :
    (rank : ℕ) (body : Fields)
    → (Json.get (codes "thinking") (apply_budget rank body).0
        ≡ some (enabled_with (thinking_budget rank)))
      × (m : ℤ) × ((Json.get (codes "max_tokens") (apply_budget rank body).0 ≡ some (float m))
          ⊎ (Json.get (codes "max_tokens") (apply_budget rank body).0 ≡ some (int m)))
      × (pos (thinking_budget rank) <ℤ m)
unfolding Fits configured apply_budget
budget_below_max rank body =
    elim (Bool-cases
      (at_most (max_tokens_of (configured (thinking_budget rank) body)) (thinking_budget rank))) [
        | inl low ↦ rw low (raised (thinking_budget rank) body)
        | inr high ↦ rw high (kept (thinking_budget rank) body high)
      ]
