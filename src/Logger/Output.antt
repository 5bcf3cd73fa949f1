-- ===== src/Logger/Output.antt =====
-- What a log statement writes.
use librocks_dll.Prelude.{
  ℕ, ◌+◌, Bool, true, false, none, some, List, [], ◌∷◌, ◌++◌, ◌≡◌, refl, ◌∙◌, sym, ap, arith,
}
use mathlib.Core.List.{append_assoc, append-nil}
use mathlib.Core.Path.{ap₂}
use librocks_dll.Prelude.Tests.{leb, is_some, if◌then◌else◌}
use librocks_dll.Prelude.Text.{Text, codes, c_str}
use librocks_dll.Logger.Lines.{line, all_text, line-whole}
use librocks_dll.Logger.Defs.{
  LogLevel, log_info, to_int, level_to_string, Host, datetime_now, LogState, Logger, set_stream,
  initialize, get_current_thread_id, is_log_level_enabled, new_logger, get, append, append_all,
  destroy, log, open_logfile,
}

append_all-on :
    (s : LogState) (ms : List Text) (g : Logger)
    → is_log_level_enabled g.logger_log_level s ≡ true
    → append_all s ms g ≡ record g { str = g.str ++ all_text ms }
unfolding append_all append
append_all-on s [] g e = ap (λ t. record g { str = t }) (sym (append-nil g.str))
append_all-on s (m ∷ ms) g e =
    ap (λ b. append_all s ms (if b then record g { str = g.str ++ c_str m } else g)) e
    ∙ (append_all-on s ms (record g { str = g.str ++ c_str m }) e
        ∙ ap (λ t. record g { str = t }) (append_assoc g.str (c_str m) (all_text ms)))

append_all-off :
    (s : LogState) (ms : List Text) (g : Logger)
    → is_log_level_enabled g.logger_log_level s ≡ false
    → append_all s ms g ≡ g
unfolding append_all append
append_all-off s [] g e = refl
append_all-off s (m ∷ ms) g e =
    ap (λ b. append_all s ms (if b then record g { str = g.str ++ c_str m } else g)) e
    ∙ append_all-off s ms g e

to_int-beyond : (s : LogState) → leb (to_int s.max_log_level + 1) (to_int s.max_log_level) ≡ false
to_int-beyond s = ground arith

initialize-set : (host : Host) (s : LogState) (f : ℕ) → s.stream ≡ some f → initialize host s ≡ s
unfolding initialize
initialize-set host s f e = ap (λ o. if is_some o then s else set_stream (open_logfile host) s) e

abbrev started : Logger
started = record { str = []; logger_log_level = to_int log_info }

-- what get leaves, by whether the level is enabled
abbrev headed : Host → LogLevel → Logger
headed host level = record {
  str =
      []
      ++ datetime_now host
      ++ codes " "
      ++ level_to_string level
      ++ codes " ["
      ++ get_current_thread_id host
      ++ codes "]\t- ";
  logger_log_level = to_int level;
}

abbrev silent : LogState → Logger
silent s = record started { logger_log_level = to_int s.max_log_level + 1 }

get-eq :
    (host : Host) (s : LogState) (level : LogLevel) (b : Bool)
    → is_log_level_enabled (to_int level) s ≡ b
    → get host s level started ≡ (if b then headed host level else silent s)
unfolding get
get-eq host s level b e = ap (λ b. if b then headed host level else silent s) e

destroy-eq :
    (g : Logger) (s : LogState) (f : ℕ) (b : Bool)
    → s.stream ≡ some f
    → is_log_level_enabled g.logger_log_level s ≡ b
    → destroy g s
      ≡ (if b then record s { written = s.written ++ (f, c_str (g.str ++ codes "\n")) ∷ [] } else s)
unfolding destroy
destroy-eq g s f b e o =
    ap₂
      (λ b r.
        if b
        then elim r as (λ r. LogState) [
          | none ↦ s
          | some f ↦ record s { written = s.written ++ (f, c_str (g.str ++ codes "\n")) ∷ [] }
        ]
        else s)
      o e

logged :
    (host : Host) (s : LogState) (level : LogLevel) (args : List Text) (f : ℕ) (b : Bool)
    → s.stream ≡ some f
    → is_log_level_enabled (to_int level) s ≡ b
    → destroy (append_all s args (get host s level started)) s ≡ (
        if b
        then record s { written = s.written ++ (f, line host level args ++ codes "\n") ∷ [] }
        else s)
logged host s level args f true e o =
    ap (λ g. destroy (append_all s args g) s) (get-eq host s level true o)
    ∙ (ap (λ g. destroy g s) (append_all-on s args (headed host level) o)
        ∙ (destroy-eq _ s f true e o
            ∙ ap (λ t. record s { written = s.written ++ (f, t) ∷ [] })
                (line-whole host level args)))
logged host s level args f false e o =
    let x : is_log_level_enabled (silent s).logger_log_level s ≡ false =
      unfold is_log_level_enabled in to_int-beyond s in
    ap (λ g. destroy (append_all s args g) s) (get-eq host s level false o)
    ∙ (ap (λ g. destroy g s) (append_all-off s args (silent s) x)
        ∙ destroy-eq (silent s) s f false e x)

-- With a stream, a log statement of an enabled level writes one line to the stream and changes
-- nothing else: the time, the level and the thread, then the texts that were appended, in their order
-- and each up to its first NUL, and a newline. Of another level it writes nothing.
pub log_lem :
    (host : Host) (s : LogState) (level : LogLevel) (args : List Text) (f : ℕ)
    → s.stream ≡ some f
    → log host s level args ≡ (
        if is_log_level_enabled (to_int level) s
        then record s { written = s.written ++ (f, line host level args ++ codes "\n") ∷ [] }
        else s)
unfolding log new_logger
log_lem host s level args f e =
    ap (λ t. destroy (append_all t args (get host t level started)) t) (initialize-set host s f e)
    ∙ logged host s level args f _ e refl
