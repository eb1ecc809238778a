-- ===== src/Orders/Metrics/Resolution.antt =====
-- What `calculateMetrics` keeps true of an order between two updates.
use request_system.Common.{
  ℕ, String, Bool, true, false, not, ◌||◌, Option, none, some, ◌≡◌, arith, is_some, ◌⊎◌, ◌==◌,
  bool_eq, diff_ptr,
}
use request_system.Entities.{Order, Status, Time, time_equal}
use request_system.Orders.Metrics.{
  is_order_resolved_status, code_or_empty, resolution, calculate_metrics,
  detect_persisted_metric_changes, dashboard_summary_affected, metric_changed,
}

||_split : (a b : Bool) → (a || b) ≡ false → (a ≡ false) × (b ≡ false)
||_split a b h = ground arith

abbrev pub is_resolved : (ℕ → Option Status) → ℕ → Bool
is_resolved find_status id = is_order_resolved_status (code_or_empty (find_status id))

-- Said over the flag, so that the status is looked up once.
pub record IsSettled (resolved : Bool) (o : Order) : Type 0 where
  pub completed : is_some o.completed_at ≡ resolved
  pub timed : is_some o.resolution_time_seconds ≡ resolved
  pub claimed : o.is_first_contact_resolution ≡ some true → resolved ≡ true

-- The update request sent none of the metric fields.
pub record KeepsMetrics (old new : Order) : Type 0 where
  pub same_completed : new.completed_at ≡ old.completed_at
  pub same_resolution : new.resolution_time_seconds ≡ old.resolution_time_seconds
  pub same_response : new.first_response_time_seconds ≡ old.first_response_time_seconds
  pub same_contact : new.is_first_contact_resolution ≡ old.is_first_contact_resolution

module _ (find_status : ℕ → Option Status) (old new : Order) (comment : Option String)
    (actor_id : ℕ) (now : Time) where
  -- When the request sends no metric field, an order whose completion time, resolution time and
  -- first-contact mark agree with its status still has them agree after the metrics are computed:
  -- the two times are set exactly when the new status is COMPLETED or CLOSED, and the mark is true
  -- only then.
  pub calculate_metrics-IsSettled :
      IsSettled (is_resolved find_status old.status_id) old
      → KeepsMetrics old new
      → IsSettled
          (is_resolved find_status new.status_id)
          (calculate_metrics find_status new old comment actor_id now)
  unfolding calculate_metrics
  calculate_metrics-IsSettled v k = ground arith

-- Two optional times that denote the same instant, or are both absent.
abbrev pub SameInstant : Option Time → Option Time → Type 0
SameInstant none none = Unit
SameInstant none (some b) = ⊥
SameInstant (some a) none = ⊥
SameInstant (some a) (some b) = a.nanos ≡ b.nanos

-- What the dashboard's summary is computed from.
pub record SameSummary (old updated : Order) : Type 0 where
  pub status_id : old.status_id ≡ updated.status_id
  pub priority_id : old.priority_id ≡ updated.priority_id
  pub executor_id : old.executor_id ≡ updated.executor_id
  pub department_id : old.department_id ≡ updated.department_id
  pub otdel_id : old.otdel_id ≡ updated.otdel_id
  pub branch_id : old.branch_id ≡ updated.branch_id
  pub office_id : old.office_id ≡ updated.office_id
  pub order_type_id : old.order_type_id ≡ updated.order_type_id
  pub duration : SameInstant old.duration updated.duration
  pub completed_at : SameInstant old.completed_at updated.completed_at
  pub resolution : old.resolution_time_seconds ≡ updated.resolution_time_seconds
  pub response : old.first_response_time_seconds ≡ updated.first_response_time_seconds
  pub contact : old.is_first_contact_resolution ≡ updated.is_first_contact_resolution

diff_ptr-false : (a b : Option ℕ) → diff_ptr ◌==◌ a b ≡ false → a ≡ b
diff_ptr-false a b h = ground arith

same_number : (a b : ℕ) → not (a == b) ≡ false → a ≡ b
same_number a b h = ground arith

diff_bool_false : (a b : Option Bool) → diff_ptr bool_eq a b ≡ false → a ≡ b
diff_bool_false a b h = ground arith

diff_time_false : (a b : Option Time) → diff_ptr time_equal a b ≡ false → SameInstant a b
diff_time_false none none h = tt
diff_time_false none (some b) h = cc
diff_time_false (some a) none h = cc
diff_time_false (some a) (some b) h = ground arith

-- An update that does not bump the version of the summary's cache leaves every field that the
-- summary is computed from as it was, times up to their location.
pub dashboard_summary_affected_sound :
    (old updated : Order) → dashboard_summary_affected old updated ≡ false → SameSummary old updated
unfolding dashboard_summary_affected
dashboard_summary_affected_sound old updated h =
    let (h12, contact) = ||_split _ _ h in
    let (h11, response) = ||_split _ _ h12 in
    let (h10, resolution) = ||_split _ _ h11 in
    let (h9, completed) = ||_split _ _ h10 in
    let (h8, duration) = ||_split _ _ h9 in
    let (h7, order_type) = ||_split _ _ h8 in
    let (h6, office) = ||_split _ _ h7 in
    let (h5, branch) = ||_split _ _ h6 in
    let (h4, otdel) = ||_split _ _ h5 in
    let (h3, department) = ||_split _ _ h4 in
    let (h2, executor) = ||_split _ _ h3 in
    let (status, priority) = ||_split _ _ h2 in
    record {
      status_id = same_number old.status_id updated.status_id status;
      priority_id = diff_ptr-false _ _ priority;
      executor_id = diff_ptr-false _ _ executor;
      department_id = diff_ptr-false _ _ department;
      otdel_id = diff_ptr-false _ _ otdel;
      branch_id = diff_ptr-false _ _ branch;
      office_id = diff_ptr-false _ _ office;
      order_type_id = diff_ptr-false _ _ order_type;
      duration = diff_time_false _ _ duration;
      completed_at = diff_time_false _ _ completed;
      resolution = diff_ptr-false _ _ resolution;
      response = diff_ptr-false _ _ response;
      contact = diff_bool_false _ _ contact;
    }

metric_kept : (a b : Option ℕ) → metric_changed ◌==◌ a b ≡ false → (b ≡ none) ⊎ (b ≡ a)
metric_kept a b h = ground arith

contact_kept : (a b : Option Bool) → metric_changed bool_eq a b ≡ false → (b ≡ none) ⊎ (b ≡ a)
contact_kept a b h = ground arith

module _ (find_status : ℕ → Option Status) (old new : Order) (comment : Option String)
    (actor_id : ℕ) (now : Time) (v : IsSettled (is_resolved find_status old.status_id) old)
    (k : KeepsMetrics old new) where
  after : Order
  after = calculate_metrics find_status new old comment actor_id now

  same_phase :
      diff_ptr time_equal old.completed_at after.completed_at ≡ false
      → is_resolved find_status new.status_id ≡ is_resolved find_status old.status_id
  unfolding after calculate_metrics
  same_phase h = ground arith

  first_response_kept :
      metric_changed ◌==◌ old.first_response_time_seconds after.first_response_time_seconds ≡ false
      → after.first_response_time_seconds ≡ old.first_response_time_seconds
  unfolding after calculate_metrics
  first_response_kept h = ground arith

  contact_unchanged :
      is_resolved find_status new.status_id ≡ is_resolved find_status old.status_id
      → metric_changed bool_eq old.is_first_contact_resolution after.is_first_contact_resolution
        ≡ false
      → after.is_first_contact_resolution ≡ old.is_first_contact_resolution
  unfolding after calculate_metrics
  contact_unchanged p h = ground arith

  times_unchanged :
      is_resolved find_status new.status_id ≡ is_resolved find_status old.status_id
      → (after.completed_at ≡ old.completed_at)
        × (after.resolution_time_seconds ≡ old.resolution_time_seconds)
  unfolding after calculate_metrics
  times_unchanged p = ground arith

-- When the request sends no metric field and the metrics agree with the old status, an update whose
-- metrics the service reports as unchanged leaves all four of them as they were: no computed
-- metric is lost for want of a write.
pub calculate_metrics_detected :
    (find_status : ℕ → Option Status) (old new : Order) (comment : Option String) (actor_id : ℕ)
    (now : Time)
    → IsSettled (is_resolved find_status old.status_id) old
    → KeepsMetrics old new
    → detect_persisted_metric_changes old
        (calculate_metrics find_status new old comment actor_id now)
      ≡ false
    → KeepsMetrics old (calculate_metrics find_status new old comment actor_id now)
unfolding detect_persisted_metric_changes after
calculate_metrics_detected find_status old new comment actor_id now v k h =
    let (h2, completed) = ||_split _ _ h in
    let (h1, contact) = ||_split _ _ h2 in
    let (response, _) = ||_split _ _ h1 in
    let phase = same_phase find_status old new comment actor_id now v k completed in
    let (same_completed, same_resolution) =
      times_unchanged find_status old new comment actor_id now v k phase in
    record {
      same_completed = same_completed;
      same_resolution = same_resolution;
      same_response = first_response_kept find_status old new comment actor_id now v k response;
      same_contact = contact_unchanged find_status old new comment actor_id now v k phase contact;
    }
