-- ===== src/Middleware/Logger.antt =====
-- middleware/logger/logger.go. Where the log goes to is left out; the texts of numbers and of latencies, and
-- net.SplitHostPort, are parameters.
pub mod Status
use revelt.Base.{
  ℕ, String, ◌/◌, ◌%◌, ◌^◌, Bool, true, false, not, ◌==◌, List, [], ◌∷◌, ◌++◌, Option, none, some,
  length, if◌then◌else◌,
}
use revelt.Text.{Text, codes, text_eq, trim_space}
use revelt.Http.{
  Request, Headers, Action, set_header, write_header, write, flush, Outcome, returned, panicked,
  Handler,
}

pub data Format : Type 0 where
  text_format json_format : Format

-- `format` is 0 where it is not set.
pub record Config : Type 0 where
  pub format : ℕ
  pub flags : ℕ
  pub skip : List Text
  pub skip_if : Option (Request → Bool)
  pub callback : Option (Request → List Text → List Text)

-- LogFlags: LogIP is bit 0, LogLatency bit 1 and LogUserAgent bit 2.
abbrev pub has_flag : ℕ → ℕ → Bool
has_flag flags bit = flags / 2 ^ bit % 2 == 1

abbrev pub log_ip : ℕ
log_ip = 0

abbrev pub log_latency : ℕ
log_latency = 1

abbrev pub log_user_agent : ℕ
log_user_agent = 2

-- LogLatency | LogIP
abbrev pub std_log_flags : ℕ
std_log_flags = 3

abbrev pub default_config : Config
default_config = record {
  format = 1;
  flags = std_log_flags;
  skip = [];
  skip_if = none;
  callback = none;
}

-- The defaults that New fills in.
unfoldable pub completed : Option Config → Config
completed none = default_config
completed (some c) = record c { format = if c.format == 0 then 1 else c.format }

-- JSONFormat, or else the text format.
unfoldable pub format_of : ℕ → Format
format_of n = if n == 2 then json_format else text_format

-- statusCapturingWriter
pub record Capture : Type 0 where
  pub status : ℕ
  pub wrote_header : Bool

abbrev pub fresh : Capture
fresh = record { status = 0; wrote_header = false }

unfoldable pub on_header : ℕ → Capture → Capture × List Action
on_header code s =
    if s.wrote_header
    then (s, [])
    else (record { status = code; wrote_header = true }, write_header code ∷ [])

unfoldable pub on_write : Text → Capture → Capture × List Action
unfolding on_header
on_write p s =
    let (s', first) = if s.wrote_header then (s, []) else on_header 200 s in
    (s', first ++ write p ∷ [])

-- A call of the handler on the wrapper; Flush reaches the wrapped writer through Unwrap.
unfoldable pub capture : Action → Capture → Capture × List Action
unfolding on_header on_write
capture (write_header code) s = on_header code s
capture (write p) s = on_write p s
capture a s = (s, a ∷ [])

unfoldable pub capture_all : List Action → Capture → Capture × List Action
unfolding capture
capture_all [] s = (s, [])
capture_all (a ∷ as') s =
    let (s', out) = capture a s in let (s'', rest) = capture_all as' s' in (s'', out ++ rest)

-- strings.Cut at a comma: what stands before it.
unfoldable pub before_comma : Text → Option Text
before_comma [] = none
before_comma (c ∷ s) =
    let rest = before_comma s in
    if c == 44 then some [] else elim rest [ none ↦ none | some t ↦ some (c ∷ t) ]

abbrev pub is_in : Text → List Text → Bool
is_in path [] = false
is_in path (p ∷ ps) = if text_eq p path then true else is_in path ps

-- What goes to slog.
pub record Line : Type 0 where
  pub format : Format
  pub args : List Text

module _ (decimal : ℕ → Text) (split_host_port : Text → Option Text) where
  unfoldable pub client_ip : Request → Text
  unfolding before_comma
  client_ip r = elim (r.headers "X-Real-Ip") [
    | c ∷ s ↦ c ∷ s
    | [] ↦ elim (r.headers "X-Forwarded-For") [
      | c ∷ s ↦ elim (before_comma (c ∷ s)) [ some first ↦ trim_space first | none ↦ c ∷ s ]
      | [] ↦ elim (split_host_port r.remote_addr) [ none ↦ r.remote_addr | some host ↦ host ]
    ]
  ]

  -- An argument with its key, where the flag is set.
  abbrev pub arg_if : Bool → String → Text → List Text
  arg_if given k v = if given then codes k ∷ v ∷ [] else []

  unfoldable pub log_args : ℕ → ℕ → Text → Request → List Text
  unfolding client_ip
  log_args flags status latency r =
      codes "status"
      ∷ decimal (if status == 0 then 200 else status)
      ∷ (arg_if (has_flag flags log_latency) "latency" latency
          ++ codes "method"
            ∷ codes r.method
            ∷ codes "path"
            ∷ r.path
            ∷ (arg_if (has_flag flags log_ip) "ip" (client_ip r)
                ++ arg_if (has_flag flags log_user_agent) "user_agent" (r.headers "User-Agent")))

  -- The end of the middleware, after the handler has returned `err`.
  unfoldable pub finish_log : Config → Request → List Text → Option Text → Outcome × List Line
  unfolding format_of
  finish_log c r args err = elim c.callback [
    | none ↦ (returned err, record { format = format_of c.format; args = args } ∷ [])
    | some callback ↦
        if length (callback r args) % 2 == 0
        then (returned err, record { format = format_of c.format; args = callback r args } ∷ [])
        else (
          returned (some (codes "logger: Callback must return an even number of arguments")),
          [],
        )
  ]

  abbrev pub skips : Config → Request → Bool
  skips c r = if is_in r.path c.skip then true else elim c.skip_if [ none ↦ false | some f ↦ f r ]

  -- The calls of the middleware, how it ended, and what it logged. A panic goes through it.
  unfoldable pub observe :
      Config → Text → Request → List Action × Outcome → (List Action × Outcome) × List Line
  unfolding capture_all log_args finish_log
  observe c latency r (as', panicked v) = (((capture_all as' fresh).1, panicked v), [])
  observe c latency r (as', returned err) =
      let (s, calls) = capture_all as' fresh in
      let (out, lines) = finish_log c r (log_args c.flags s.status latency r) err in
      ((calls, out), lines)

  -- New, where the handler takes `latency`.
  unfoldable pub log_requests :
      Option Config → Text → Handler → Request → Headers → (List Action × Outcome) × List Line
  unfolding completed observe
  log_requests config latency next r h =
      let c = completed config in
      if skips c r then (next r h, []) else observe c latency r (next r h)
