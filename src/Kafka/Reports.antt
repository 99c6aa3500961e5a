-- ===== src/Kafka/Reports.antt =====
-- A producer that is deleted after one poll, a report of a failure, and the theorems on them.
use huntind.Common.{ℕ, if◌then◌else◌, negsuc, ◌≡◌, refl, true, false, []}
use huntind.Strings.{codes}
use huntind.Log.{Build, Severity, error, info, warn, trace}
use huntind.Kafka.Callback.{
  Report, Event, event_error, dr_cb, event_cb, count_of, takes, callbacks-log,
}
use huntind.Kafka.Managed.{ManagedProducer, Step, Run, ended, deleted, Run-deleted}

abbrev deleted_managed : ManagedProducer
deleted_managed = record { stop_polling = true; thread = ended; stage = deleted; polls = 1 }

polled_once : Run deleted_managed
polled_once =
    let first = Run.later Run.start (Step.poll_begin refl refl) in
    let stopped = Run.later first (Step.stop refl) in
    let polled = Run.later stopped (Step.poll_end refl) in
    let left = Run.later polled (Step.leave refl refl) in
    let joined = Run.later left (Step.join refl refl) in
    Run.later (Run.later joined (Step.flush refl)) (Step.delete refl)

Run-deleted_example :
    (deleted_managed.thread ≡ ended) × ((n : ManagedProducer) → ¬ Step deleted_managed n)
Run-deleted_example = Run-deleted polled_once refl

abbrev info_build : Build
info_build = record {
  log_level_trace = false;
  log_level_debug = false;
  log_level_info = true;
  log_level_warn = false;
  log_level_error = false;
  log_level_fatal = false;
  enable_console_log = false;
}

abbrev timed_out : Report
timed_out = record {
  err = 7;
  errstr = codes "timed out";
  topic_name = codes "flows";
  partition = negsuc 0;
  offset = negsuc 1000;
}

abbrev broken : Event
broken = record { type = event_error; str = codes "broken"; fac = []; broker_name = [] }

-- The report is that of a failure, and both texts are written.
callbacks-log_example :
    let shown : Severity → ℕ = λ severity. if takes info_build severity then 1 else 0 in
    (count_of error (dr_cb info_build true timed_out) ≡ shown error)
    × (count_of info (dr_cb info_build true timed_out) ≡ shown info)
    × (count_of error (event_cb info_build broken) ≡ shown error)
    × (count_of warn (event_cb info_build broken) ≡ 0)
    × (count_of trace (event_cb info_build broken) ≡ 0)
    × (true ≡ true → (shown info ≡ 1) × (shown warn ≡ 1) × (shown error ≡ 1))
callbacks-log_example = callbacks-log info_build true timed_out broken
