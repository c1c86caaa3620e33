-- ===== src/Billing/Settle/Once.antt =====
-- A request is settled at most once.
use mathlib.Core.Path.{subst}
use muhiya_workspace.Prelude.{
  ◌≡◌, true, inl, inr, List, ◌∷◌, Result, ok, err, Bool-cases, >>=-eq-ok, ok-injective,
}
use muhiya_workspace.Prelude.Float.{Float}
use muhiya_workspace.Prelude.Text.{text_eq_refl}
use muhiya_workspace.Billing.Period.{Instant}
use muhiya_workspace.Billing.Legacy.{LegacyError}
use muhiya_workspace.Billing.Store.{Store, Topup}
use muhiya_workspace.Billing.Settle.{
  Entry, normalize_settled_entry, settle_usage_and_log, request_log_exists, of_legacy, of_billing,
  charged_topups,
}

settle_known :
    (f : Float) (s : Store) (entry : Entry f.Value) (now : Instant) {e : Entry f.Value}
    → normalize_settled_entry f entry ≡ ok e
    → request_log_exists s e.id ≡ true
    → settle_usage_and_log f s entry now ≡ ok s
unfolding settle_usage_and_log
settle_known f s entry now n known = rw (n, known)

of_legacy_ok : {A : Type 0} (m : Result LegacyError A) {a : A} → of_legacy m ≡ ok a → m ≡ ok a
of_legacy_ok (ok a) h = cc
of_legacy_ok (err e) h = cc

logged_first :
    {F : Type 0} (s : Store) (e : Entry F) (topups : List Topup)
    → request_log_exists
        (record s {
          topups = topups;
          logs =
              record {
                id = e.id;
                user_id = e.user_id;
                status_code = e.status_code;
                cost = e.cost;
                created_at = e.created_at;
              }
              ∷ s.logs;
        })
        e.id
      ≡ true
unfolding request_log_exists
logged_first s e topups = rw (text_eq_refl e.id)

-- the entry that a successful settlement is for, and that it is logged afterwards
settle_logs :
    (f : Float) (s : Store) (entry : Entry f.Value) (now : Instant) {s' : Store}
    → settle_usage_and_log f s entry now ≡ ok s'
    → (e : Entry f.Value) × (normalize_settled_entry f entry ≡ ok e)
      × (request_log_exists s' e.id ≡ true)
unfolding settle_usage_and_log
settle_logs f s entry now {s' = s'} h =
    let (e, n, rest) = >>=-eq-ok (of_legacy (normalize_settled_entry f entry)) _ h in
    let normal = of_legacy_ok (normalize_settled_entry f entry) n in
    elim (Bool-cases (request_log_exists s e.id)) [
      | inl known ↦
          let same = ok-injective (rw known at rest) in
          (e, normal, subst (λ (t : Store). request_log_exists t e.id ≡ true) same known)
      | inr fresh ↦
          let (topups, _, made) =
            >>=-eq-ok (of_billing (charged_topups s e.user_id e.cost e.created_at now)) _
              (rw fresh at rest) in
          (
            e,
            normal,
            subst (λ (t : Store). request_log_exists t e.id ≡ true) (ok-injective made)
                (logged_first s e topups),
          )
    ]

-- Settling a request again, at whatever later time, changes nothing: it is charged once.
pub settle_usage_and_log_once :
    (f : Float) (s : Store) (entry : Entry f.Value) (now later : Instant) {s' : Store}
    → settle_usage_and_log f s entry now ≡ ok s'
    → settle_usage_and_log f s' entry later ≡ ok s'
settle_usage_and_log_once f s entry now later {s' = s'} h =
    let (e, n, known) = settle_logs f s entry now h in settle_known f s' entry later n known
