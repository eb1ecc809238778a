-- ===== src/Orders/Metrics.antt =====
-- internal/services/order_service_metrics.go: the response and resolution times of an order, and
-- whether an update touches what the dashboard counts. Logging is left out.
pub mod Resolution
pub mod Response
use request_system.Common.{
  ℕ, zero, suc, ◌-◌, ◌/◌, ◌+◌, String, Bool, true, false, ◌&&◌, ◌||◌, not, Option, none, some,
  if◌then◌else◌, ◌==◌, leb, str_eq, is_some, points_to, diff_ptr, bool_eq, trim_space, is_empty,
}
use request_system.Entities.{Order, Status, Time, time_equal, in_local}

-- An int64 of the source, as far as it is needed here; `negsuc n` is -(n + 1).
pub data ℤ : Type 0 where
  pos : ℕ → ℤ
  negsuc : ℕ → ℤ

abbrev pub negate : ℕ → ℤ
negate zero = pos 0
negate (suc n) = negsuc n

-- `int64(nowAt.Sub(createdAt).Seconds())`: whole seconds, rounded towards zero.
seconds_between : Time → Time → ℤ
seconds_between created now =
    if leb created.nanos now.nanos
    then pos ((now.nanos - created.nanos) / 1000000000)
    else negate ((created.nanos - now.nanos) / 1000000000)

-- `if diff < 0 { diff = 0 }`, and the conversion to uint64.
abbrev clamp_negative : ℤ → ℕ
clamp_negative (pos n) = n
clamp_negative (negsuc n) = 0

pub elapsed_seconds : Time → Time → ℕ
unfolding seconds_between
elapsed_seconds created now = clamp_negative (seconds_between created now)

unfoldable pub is_order_resolved_status : String → Bool
is_order_resolved_status code = str_eq code "COMPLETED" || str_eq code "CLOSED"

abbrev pub code_or_empty : Option Status → String
code_or_empty none = ""
code_or_empty (some s) = elim s.code [ none ↦ "" | some code ↦ code ]

-- `dto.Comment != nil && strings.TrimSpace(*dto.Comment) != ""`.
abbrev pub has_comment : Option String → Bool
has_comment none = false
has_comment (some text) = not (is_empty (trim_space text))

unfoldable pub apply_resolution_metrics : Order → Time → ℕ → Order
apply_resolution_metrics o now seconds = record o {
  resolution_time_seconds = some seconds;
  completed_at = some (in_local now);
  is_first_contact_resolution =
      if is_some o.first_response_time_seconds then o.is_first_contact_resolution else some true;
}

unfoldable pub reset_resolution_metrics : Order → Order
reset_resolution_metrics o = record o {
  completed_at = none;
  resolution_time_seconds = none;
  is_first_contact_resolution = none;
}

-- `oldOrder.FirstResponseTimeSeconds == nil || *oldOrder.FirstResponseTimeSeconds == 0`.
abbrev pub is_unanswered : Option ℕ → Bool
is_unanswered none = true
is_unanswered (some n) = n == 0

-- `executorChanged`: an executor was set, or replaced by another.
abbrev pub executor_changed : Option ℕ → Option ℕ → Bool
executor_changed none none = false
executor_changed none (some b) = true
executor_changed (some a) none = false
executor_changed (some a) (some b) = not (a == b)

-- What counts as the executor's first answer.
abbrev pub is_response : Order → Order → Option String → ℕ → Bool
is_response new old comment actor_id =
    (points_to old.executor_id actor_id || points_to new.executor_id actor_id)
    && (not (new.status_id == old.status_id)
        || executor_changed old.executor_id new.executor_id
        || has_comment comment)

unfoldable pub first_response : Order → Order → Option String → ℕ → ℕ → Bool → Order
first_response new old comment actor_id seconds new_resolved =
    if is_unanswered old.first_response_time_seconds && is_response new old comment actor_id
    then record new {
      first_response_time_seconds = some seconds;
      is_first_contact_resolution =
          some (new_resolved && not (is_some old.first_response_time_seconds));
    }
    else new

-- The two steps at the end of `calculateMetrics`.
unfoldable pub resolution : Order → Time → ℕ → Bool → Bool → Order
unfolding apply_resolution_metrics reset_resolution_metrics
resolution o now seconds new_resolved old_resolved =
    let applied =
      if new_resolved && not old_resolved then apply_resolution_metrics o now seconds else o in
    if old_resolved && not new_resolved then reset_resolution_metrics applied else applied

unfoldable pub calculate_metrics :
    (ℕ → Option Status) → Order → Order → Option String → ℕ → Time → Order
unfolding elapsed_seconds first_response resolution
calculate_metrics find_status new old comment actor_id now =
    let seconds = elapsed_seconds old.created_at now in
    let new_resolved = is_order_resolved_status (code_or_empty (find_status new.status_id)) in
    let old_resolved = is_order_resolved_status (code_or_empty (find_status old.status_id)) in
    resolution (first_response new old comment actor_id seconds new_resolved) now seconds
      new_resolved old_resolved

-- `updated.X != nil && (current.X == nil || *updated.X != *current.X)`.
abbrev metric_changed {ℓ} : {A : Type ℓ} → (A → A → Bool) → Option A → Option A → Bool
metric_changed same current none = false
metric_changed same none (some b) = true
metric_changed same (some a) (some b) = not (same b a)

unfoldable pub detect_persisted_metric_changes : Order → Order → Bool
detect_persisted_metric_changes current updated =
    metric_changed ◌==◌ current.first_response_time_seconds updated.first_response_time_seconds
    || metric_changed ◌==◌ current.resolution_time_seconds updated.resolution_time_seconds
    || metric_changed bool_eq current.is_first_contact_resolution
        updated.is_first_contact_resolution
    || diff_ptr time_equal current.completed_at updated.completed_at

-- `dashboardSummaryAffected`, for two orders that are not nil.
unfoldable pub dashboard_summary_affected : Order → Order → Bool
dashboard_summary_affected old updated =
    not (old.status_id == updated.status_id)
    || diff_ptr ◌==◌ old.priority_id updated.priority_id
    || diff_ptr ◌==◌ old.executor_id updated.executor_id
    || diff_ptr ◌==◌ old.department_id updated.department_id
    || diff_ptr ◌==◌ old.otdel_id updated.otdel_id
    || diff_ptr ◌==◌ old.branch_id updated.branch_id
    || diff_ptr ◌==◌ old.office_id updated.office_id
    || diff_ptr ◌==◌ old.order_type_id updated.order_type_id
    || diff_ptr time_equal old.duration updated.duration
    || diff_ptr time_equal old.completed_at updated.completed_at
    || diff_ptr ◌==◌ old.resolution_time_seconds updated.resolution_time_seconds
    || diff_ptr ◌==◌ old.first_response_time_seconds updated.first_response_time_seconds
    || diff_ptr bool_eq old.is_first_contact_resolution updated.is_first_contact_resolution
