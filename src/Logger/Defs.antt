-- ===== src/Logger/Defs.antt =====
-- Logger, with what Windows returns as the parameter `Host`.
use librocks_dll.Prelude.{ℕ, ◌+◌, Bool, Option, none, some, List, [], ◌∷◌, ◌++◌}
use librocks_dll.Prelude.Tests.{leb, ◌==◌, is_some, if◌then◌else◌}
use librocks_dll.Prelude.Text.{Text, codes, c_str}

pub data LogLevel : Type 0 where
  log_fatal log_error log_warning log_info log_debug log_fine log_finer : LogLevel

-- the value of the enumerator
abbrev pub to_int : LogLevel → ℕ
to_int log_fatal = 0
to_int log_error = 1
to_int log_warning = 2
to_int log_info = 3
to_int log_debug = 4
to_int log_fine = 5
to_int log_finer = 6

unfoldable pub level_to_string : LogLevel → Text
level_to_string log_fatal = codes "FATAL"
level_to_string log_error = codes "ERROR"
level_to_string log_warning = codes "WARN "
level_to_string log_info = codes "INFO "
level_to_string log_debug = codes "DEBUG"
level_to_string log_fine = codes "FINE "
level_to_string log_finer = codes "FINER"

-- What the calls of Windows leave at one moment: `none` where a call fails, else the buffer that it
-- filled. `open_file` is _fsopen; `formatted_time` and `thread_id` are what sprintf_s made of the
-- local time and of the number of the thread.
pub record Host : Type 0 where
  pub module_path : Option Text
  pub date_suffix : Option Text
  pub date : Option Text
  pub time_ok : Bool
  pub formatted_time : Option Text
  pub thread_id : Text
  pub open_file : Text → Option ℕ

-- strrchr(buf, '\\') and the text in front of it; `none` where there is no backslash
abbrev pub before_last_backslash : Text → Option Text
before_last_backslash [] = none
before_last_backslash (c ∷ s) = elim (before_last_backslash s) [
  | some d ↦ some (c ∷ d)
  | none ↦ if c == 92 then some [] else none
]

-- ownPath, today, openLogfile
own_path : Option Text → Text
own_path none = []
own_path (some buf) = elim (before_last_backslash (c_str buf)) [
  | none ↦ []
  | some d ↦ d ++ codes "\\"
]

-- std::string(&buffer[0]), or the text of the error
abbrev pub or_text : Option Text → Text → Text
or_text none t = t
or_text (some buffer) t = c_str buffer

abbrev today : Host → Text
today host = or_text host.date_suffix (codes "Error in today")

unfoldable pub log_path : Host → Text
unfolding own_path
log_path host = own_path host.module_path ++ codes "librocks" ++ today host ++ codes ".log"

unfoldable pub open_logfile : Host → Option ℕ
unfolding log_path
open_logfile host = host.open_file (c_str (log_path host))

-- getCurrentThreadId
abbrev pub get_current_thread_id : Host → Text
get_current_thread_id host = c_str host.thread_id

-- dateToday, timeNow, datetimeNow
unfoldable pub date_today : Host → Text
date_today host = or_text host.date (codes "Error in dateToday()")

unfoldable pub time_now : Host → Text
time_now host =
    if host.time_ok
    then or_text host.formatted_time (codes "Error in timeNow()")
    else codes "Error in timeNow()"

unfoldable pub datetime_now : Host → Text
unfolding date_today time_now
datetime_now host = date_today host ++ codes " " ++ time_now host

-- the static data: the maximal level and the stream; and what was written to it
pub record LogState : Type 0 where
  pub max_log_level : LogLevel
  pub stream : Option ℕ
  pub written : List (ℕ × Text)

-- One Logger object. `logger_log_level` is an int behind the enum: `get` may set it past the last
-- enumerator.
pub record Logger : Type 0 where
  pub str : Text
  pub logger_log_level : ℕ

abbrev pub set_stream : Option ℕ → LogState → LogState
set_stream none s = s
set_stream (some f) s = record s { stream = some f }

abbrev pub set_max_log_level : LogLevel → LogState → LogState
set_max_log_level l s = record s { max_log_level = l }

abbrev pub is_initialized : LogState → Bool
is_initialized s = is_some s.stream

unfoldable pub initialize : Host → LogState → LogState
initialize host s = if is_initialized s then s else set_stream (open_logfile host) s

unfoldable pub is_log_level_enabled : ℕ → LogState → Bool
is_log_level_enabled l s = leb l (to_int s.max_log_level)

-- Logger()
unfoldable pub new_logger : Host → LogState → Logger × LogState
unfolding initialize
new_logger host s = (record { str = []; logger_log_level = to_int log_info }, initialize host s)

-- get(level)
unfoldable pub get : Host → LogState → LogLevel → Logger → Logger
unfolding is_log_level_enabled
get host s level g =
    if is_log_level_enabled (to_int level) s
    then record {
      str =
          g.str
          ++ datetime_now host
          ++ codes " "
          ++ level_to_string level
          ++ codes " ["
          ++ get_current_thread_id host
          ++ codes "]\t- ";
      logger_log_level = to_int level;
    }
    else record g { logger_log_level = to_int s.max_log_level + 1 }

-- append(msg), in its four overloads: a `char*` is read up to its NUL, and the two for std::string
-- pass on msg.c_str()
unfoldable pub append : LogState → Text → Logger → Logger
unfolding is_log_level_enabled
append s msg g =
    if is_log_level_enabled g.logger_log_level s then record g { str = g.str ++ c_str msg } else g

unfoldable pub append_all : LogState → List Text → Logger → Logger
unfolding append
append_all s [] g = g
append_all s (m ∷ ms) g = append_all s ms (append s m g)

-- ~Logger(): fprintf with "%s" writes str.c_str()
unfoldable pub destroy : Logger → LogState → LogState
unfolding is_log_level_enabled
destroy g s =
    if is_log_level_enabled g.logger_log_level s
    then elim s.stream [
      | none ↦ s
      | some f ↦ record s { written = s.written ++ (f, c_str (g.str ++ codes "\n")) ∷ [] }
    ]
    else s

-- A log statement: Logger().get(level).append(…)…
unfoldable pub log : Host → LogState → LogLevel → List Text → LogState
unfolding new_logger get append_all destroy
log host s level args =
    let (g, s') = new_logger host s in destroy (append_all s' args (get host s' level g)) s'
