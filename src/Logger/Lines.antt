-- ===== src/Logger/Lines.antt =====
-- The line of a log statement: no NUL gets into it, so that fprintf writes all of it.
use Prim.Native.String.{String}
use librocks_dll.Prelude.{true, Option, none, some, List, [], ◌∷◌, ◌++◌, ◌≡◌, inl, inr, refl}
use librocks_dll.Prelude.Tests.{Bool-cases}
use librocks_dll.Prelude.Text.{Text, codes, c_str}
use librocks_dll.Prelude.CString.{
  HasNoNul, c_str-HasNoNul, append-HasNoNul, HasNoNul-c_str, has_no_nul, has_no_nul-HasNoNul,
}
use librocks_dll.Logger.Defs.{
  LogLevel, log_fatal, log_error, log_warning, log_info, log_debug, log_fine, log_finer,
  level_to_string, Host, or_text, get_current_thread_id, date_today, time_now, datetime_now,
}

-- the arguments, each up to its first NUL
abbrev pub all_text : List Text → Text
all_text [] = []
all_text (m ∷ ms) = c_str m ++ all_text ms

-- the line of a statement, without its newline
abbrev pub line : Host → LogLevel → List Text → Text
line host level args =
    ([]
      ++ datetime_now host
      ++ codes " "
      ++ level_to_string level
      ++ codes " ["
      ++ get_current_thread_id host
      ++ codes "]\t- ")
    ++ all_text args

literal-HasNoNul : (s : String) → has_no_nul (codes s) ≡ true → HasNoNul (codes s)
literal-HasNoNul s e = has_no_nul-HasNoNul (codes s) e

-- what stands in a buffer, or the text of an error
or_text-HasNoNul :
    (o : Option Text) (s : String) → has_no_nul (codes s) ≡ true → HasNoNul (or_text o (codes s))
or_text-HasNoNul none s e = literal-HasNoNul s e
or_text-HasNoNul (some b) s e = c_str-HasNoNul b

all_text-HasNoNul : (ms : List Text) → HasNoNul (all_text ms)
all_text-HasNoNul [] = tt
all_text-HasNoNul (m ∷ ms) =
    append-HasNoNul (c_str m) (all_text ms) (c_str-HasNoNul m) (all_text-HasNoNul ms)

time_now-HasNoNul : (host : Host) → HasNoNul (time_now host)
unfolding time_now
time_now-HasNoNul host = elim (Bool-cases host.time_ok) [
  | inl e ↦ rw e (or_text-HasNoNul host.formatted_time "Error in timeNow()" refl)
  | inr e ↦ rw e (literal-HasNoNul "Error in timeNow()" refl)
]

datetime_now-HasNoNul : (host : Host) → HasNoNul (datetime_now host)
unfolding datetime_now date_today
datetime_now-HasNoNul host =
    let day = or_text host.date (codes "Error in dateToday()") in
    append-HasNoNul (day ++ codes " ") (time_now host)
      (append-HasNoNul day (codes " ") (or_text-HasNoNul host.date "Error in dateToday()" refl)
        (literal-HasNoNul " " refl))
      (time_now-HasNoNul host)

level-has_no_nul : (level : LogLevel) → has_no_nul (level_to_string level) ≡ true
unfolding level_to_string
level-has_no_nul log_fatal = refl
level-has_no_nul log_error = refl
level-has_no_nul log_warning = refl
level-has_no_nul log_info = refl
level-has_no_nul log_debug = refl
level-has_no_nul log_fine = refl
level-has_no_nul log_finer = refl

line-HasNoNul :
    (host : Host) (level : LogLevel) (args : List Text) → HasNoNul (line host level args)
line-HasNoNul host level args =
    let text = level_to_string level in
    let to_level = datetime_now host ++ codes " " ++ text in
    let to_thread = to_level ++ codes " [" ++ get_current_thread_id host in
    append-HasNoNul (to_thread ++ codes "]\t- ") (all_text args)
      (append-HasNoNul to_thread (codes "]\t- ")
        (append-HasNoNul (to_level ++ codes " [") (get_current_thread_id host)
          (append-HasNoNul to_level (codes " [")
            (append-HasNoNul (datetime_now host ++ codes " ") text
              (append-HasNoNul (datetime_now host) (codes " ") (datetime_now-HasNoNul host)
                (literal-HasNoNul " " refl))
              (has_no_nul-HasNoNul text (level-has_no_nul level)))
            (literal-HasNoNul " [" refl))
          (c_str-HasNoNul host.thread_id))
        (literal-HasNoNul "]\t- " refl))
      (all_text-HasNoNul args)

pub line-whole :
    (host : Host) (level : LogLevel) (args : List Text)
    → c_str (line host level args ++ codes "\n") ≡ line host level args ++ codes "\n"
line-whole host level args = HasNoNul-c_str (line host level args ++ codes "\n") (
    append-HasNoNul (line host level args) (codes "\n") (line-HasNoNul host level args)
      (literal-HasNoNul "\n" refl))
