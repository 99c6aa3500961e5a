-- ===== src/Kafka/Callback.antt =====
-- The report and the event callback of source/kafka_callback.cpp: what they write to the log.
use huntind.Common.{
  ℕ, suc, leb, true, false, none, some, ◌≡◌, List, [], ◌∷◌, ◌++◌, Bool, ◌&&◌, ◌==◌, if◌then◌else◌,
  arith, ℤ,
}
use huntind.Strings.{Text, codes}
use huntind.Log.{
  Severity, trace, debug, info, warn, error, fatal, Build, Entry, etrace, einfo, red, green, blue,
  int_text, min_severity,
}

-- The severities by rank.
abbrev pub rank : Severity → ℕ
rank trace = 0
rank debug = 1
rank info = 2
rank warn = 3
rank error = 4
rank fatal = 5

-- The log of a build takes what is at least as severe as its `minSeverity`; without one there is no
-- such build.
unfoldable pub takes : Build → Severity → Bool
takes build severity = elim (min_severity build) [
  | none ↦ false
  | some least ↦ leb (rank least) (rank severity)
]

-- `ELOG_INFO << ...` and its like: easylog tests the severity.
abbrev pub elog : Build → Severity → Text → List Entry
elog build severity text = if takes build severity then (severity, text) ∷ [] else []

-- A delivery report; the error code 0 is that of a message that was delivered.
pub record Report : Type 0 where
  pub err : ℕ
  pub errstr : Text
  pub topic_name : Text
  pub partition : ℤ
  pub offset : ℤ

-- Nothing returns behind the error, so that a failure can be followed by the other text.
unfoldable pub dr_cb : Build → (verbose : Bool) → Report → List Entry
dr_cb build verbose message =
    let failed : List Entry =
      if message.err == 0 then [] else elog build error (codes "消息推送失败: " ++ message.errstr) in
    let sent : List Entry = elog build info (
      green (codes "消息发送成功: ")
      ++ message.topic_name
      ++ codes "["
      ++ int_text message.partition
      ++ codes "]["
      ++ int_text message.offset
      ++ codes "]") in
    failed ++ einfo build (if verbose then sent else [])

-- The types of events that the source tells apart.
pub data EventType : Type 0 where
  event_error event_stats event_log event_throttle event_other : EventType

pub record Event : Type 0 where
  pub type : EventType
  pub str : Text
  pub fac : Text
  pub broker_name : Text

unfoldable pub event_cb : Build → Event → List Entry
event_cb build event = elim event.type [
  | event_error ↦ elog build error (red (codes "错误: ") ++ event.str)
  | event_stats ↦ etrace build (elog build trace (blue (codes "EVENT_STATS: ") ++ event.str))
  | event_log ↦ elog build warn (blue (codes "EVENT_LOG: ") ++ event.fac ++ event.str)
  | event_throttle ↦
      etrace build
        (elog build trace (red (codes "EVENT_THROTTLE: ") ++ event.broker_name ++ event.str))
  | event_other ↦ []
]

-- How many entries have a severity.
abbrev pub count_of : Severity → List Entry → ℕ
count_of severity [] = 0
count_of severity ((s, text) ∷ log) =
    let rest = count_of severity log in if rank s == rank severity then suc rest else rest

-- A delivery report writes one error just if it has an error code and the log takes errors, and
-- one message of success just if the build logs at level info, the program is verbose and the log
-- takes it, failed or not; an event writes one error just if it is an error, one warning just if
-- it is a log event, and one trace just if it is one of statistics or throttling and the build
-- logs at level trace, each if the log takes it; and the log of a build at level info takes
-- messages, warnings and errors.
pub callbacks-log :
    (build : Build) (verbose : Bool) (message : Report) (event : Event)
    → let shown : Severity → ℕ = λ severity. if takes build severity then 1 else 0 in
      (count_of error (dr_cb build verbose message) ≡ (if message.err == 0 then 0 else shown error))
      × (count_of info (dr_cb build verbose message)
          ≡ (if build.log_level_info && verbose then shown info else 0))
      × (count_of error (event_cb build event)
          ≡ elim event.type [ event_error ↦ shown error | _ ↦ 0 ])
      × (count_of warn (event_cb build event) ≡ elim event.type [ event_log ↦ shown warn | _ ↦ 0 ])
      × (count_of trace (event_cb build event) ≡ elim event.type [
        | event_stats ↦ if build.log_level_trace then shown trace else 0
        | event_throttle ↦ if build.log_level_trace then shown trace else 0
        | _ ↦ 0
      ])
      × (build.log_level_info ≡ true → (shown info ≡ 1) × (shown warn ≡ 1) × (shown error ≡ 1))
unfolding dr_cb event_cb takes min_severity
callbacks-log build verbose message event = ground arith
