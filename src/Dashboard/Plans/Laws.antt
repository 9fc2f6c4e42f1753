-- ===== src/Dashboard/Plans/Laws.antt =====
-- Laws of `planAction` of billing/format.ts.
use cloud_photo_delivery.Prelude.{
  String, true, ◌≡◌, sym, ◌∙◌, ap, str_eq, eq_iff, Bool-cases, inl, inr, arith,
}
use cloud_photo_delivery.Dashboard.Plans.{Plan, PlanAction, upgrade, downgrade, plan_action}

-- The way back of a change of plan.
abbrev pub opposite : PlanAction → PlanAction
opposite upgrade = downgrade
opposite downgrade = upgrade
opposite action = action

str_eq-swap : (s t : String) → s ≡ t → str_eq s t ≡ str_eq t s
str_eq-swap s t e = ap (λ x. str_eq s x) (sym e) ∙ ap (λ x. str_eq x s) e

str_eq-sym : (s t : String) → str_eq s t ≡ str_eq t s
str_eq-sym s t = elim (Bool-cases (str_eq s t)) [
  | inl same ↦ str_eq-swap s t ((eq_iff s t).0 same)
  | inr other ↦ elim (Bool-cases (str_eq t s)) [
    | inl back ↦ sym (str_eq-swap t s ((eq_iff t s).0 back))
    | inr apart ↦ other ∙ sym apart
  ]
]

-- For two plans on offer and a usable subscription to one of them, what the other plan's button
-- does is undone by the first one's after the change: an upgrade by a downgrade, a downgrade by an
-- upgrade, and nothing by nothing.
pub plan_action-opposite :
    (p q : Plan)
    → p.active ≡ true
    → q.active ≡ true
    → plan_action q p.id p.price_cents true ≡ opposite (plan_action p q.id q.price_cents true)
unfolding plan_action
plan_action-opposite p q h k = ground (arith, str_eq-sym p.id q.id)
