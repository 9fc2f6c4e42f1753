-- ===== src/Dashboard/Plans.antt =====
-- apps/web/src/features/billing/format.ts: what a plan's button does, and how full a quota is.
pub mod Laws
use cloud_photo_delivery.Prelude.{
  ℕ, ◌*◌, min, String, Bool, true, false, not, Option, none, some, leb, ltb, if◌then◌else◌, str_eq,
  round_percent,
}

pub data PlanAction : Type 0 where
  current subscribe upgrade downgrade unavailable : PlanAction

pub data BillingInterval : Type 0 where
  month year : BillingInterval

-- The fields of a plan that are read.
pub record Plan : Type 0 where
  pub id : String
  pub price_cents : ℕ
  pub active : Bool

unfoldable pub is_usable_status : String → Bool
is_usable_status status =
    if str_eq status "trialing"
    then true
    else if str_eq status "active"
    then true
    else str_eq status "past_due"

-- A subscription by its status.
unfoldable pub is_usable_subscription : Option String → Bool
is_usable_subscription none = false
is_usable_subscription (some status) = is_usable_status status

unfoldable pub plan_price_cents : Plan → BillingInterval → ℕ
plan_price_cents plan month = plan.price_cents
plan_price_cents plan year = plan.price_cents * 12

unfoldable pub plan_action : Plan → String → ℕ → Bool → PlanAction
plan_action plan effective_plan_id effective_price_cents has_usable_subscription =
    if not plan.active
    then unavailable
    else if not has_usable_subscription
    then (if str_eq plan.id effective_plan_id then current else subscribe)
    else if str_eq plan.id effective_plan_id
    then current
    else if ltb effective_price_cents plan.price_cents
    then upgrade
    else if ltb plan.price_cents effective_price_cents
    then downgrade
    else current

unfoldable pub plan_action_label : PlanAction → String
plan_action_label current = "Current plan"
plan_action_label subscribe = "Subscribe"
plan_action_label upgrade = "Upgrade"
plan_action_label downgrade = "Downgrade"
plan_action_label unavailable = "Unavailable"

unfoldable pub usage_percent : ℕ → ℕ → ℕ
usage_percent used limit = if leb limit 0 then 0 else min 100 (round_percent used limit)
