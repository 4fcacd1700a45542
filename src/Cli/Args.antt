-- ===== src/Cli/Args.antt =====
-- crates/client-cli/src/args.rs: the options of the command line. Errors carry no texts; the reading of
-- a refresh interval, a floating-point number of seconds, is a parameter. Also the choice of the socket
-- and of the latency display in crates/client-cli/src/backend.rs.
pub mod Accepted
use gpustat4cluster.Base.{
  ℕ, ◌^◌, if◌then◌else◌, Bool, true, false, ◌&&◌, ◌||◌, Option, none, some, List, [], ◌∷◌, Result,
  ok, err, ◌>>=◌,
}
use gpustat4cluster.Base.Text.{Text, text}
use gpustat4cluster.Base.Scan.{is_empty, is_member, starts_with_char, trim, to_ascii_lowercase}
use gpustat4cluster.Base.Scan.Digits.{parse_uint}

pub record CliOptions : Type 0 where
  pub node_filter : Option Text
  pub user_filter : Option Text
  pub watch : Bool
  -- in milliseconds
  pub refresh_interval : ℕ
  pub json : Bool
  pub force_color : Bool
  pub no_color : Bool
  pub show_header : Bool
  pub no_processes : Bool
  pub show_cmd : Bool
  pub show_user : Bool
  pub show_pid : Bool
  pub gresname_width : Option ℕ
  pub latency_display : Option Bool
  pub backend_socket : Option Text

abbrev pub default_options : CliOptions
default_options = record {
  node_filter = none;
  user_filter = none;
  watch = false;
  refresh_interval = 2000;
  json = false;
  force_color = false;
  no_color = false;
  show_header = true;
  no_processes = false;
  show_cmd = false;
  show_user = false;
  show_pid = false;
  gresname_width = none;
  latency_display = none;
  backend_socket = none;
}

pub data ArgsError : Type 0 where
  help : ArgsError
  version : ArgsError
  value_required : ArgsError
  invalid_interval : ArgsError
  invalid_bool : ArgsError
  invalid_width : ArgsError
  unsupported : Text → ArgsError
  color_conflict : ArgsError
  watch_conflict : ArgsError

-- What the argument after a flag is.
pub data Expect : Type 0 where
  flag : Expect
  -- an interval, if it does not start with `-`
  interval : Expect
  node : Expect
  user : Expect
  latency : Expect
  name_width : Expect
  socket : Expect

unfoldable pub parse_bool : Text → Result Bool ArgsError
parse_bool raw =
    let word = to_ascii_lowercase (trim raw) in
    if is_member word (text "1" ∷ text "true" ∷ text "yes" ∷ text "on" ∷ [])
    then ok true
    else if is_member word (text "0" ∷ text "false" ∷ text "no" ∷ text "off" ∷ [])
    then ok false
    else err invalid_bool

-- The options with those of a flag without value.
unfoldable pub flag_step : CliOptions → Text → Result (CliOptions × Expect) ArgsError
flag_step opts arg =
    if is_member arg (text "-h" ∷ text "--help" ∷ [])
    then err help
    else if is_member arg (text "-v" ∷ text "--version" ∷ [])
    then err version
    else if is_member arg (text "-n" ∷ [])
    then ok (opts, node)
    else if is_member arg (text "-user" ∷ [])
    then ok (opts, user)
    else if is_member arg (text "--watch" ∷ text "-w" ∷ [])
    then ok (record opts { watch = true }, interval)
    else if is_member arg
        (text "--interval" ∷ text "--refresh" ∷ text "--refresh-interval" ∷ text "-i" ∷ [])
    then ok (record opts { watch = true }, interval)
    else if is_member arg (text "--json" ∷ [])
    then ok (record opts { json = true }, flag)
    else if is_member arg (text "--force-color" ∷ text "--color" ∷ [])
    then ok (record opts { force_color = true }, flag)
    else if is_member arg (text "--no-color" ∷ [])
    then ok (record opts { no_color = true }, flag)
    else if is_member arg (text "--no-header" ∷ [])
    then ok (record opts { show_header = false }, flag)
    else if is_member arg (text "--no-processes" ∷ [])
    then ok (record opts { no_processes = true }, flag)
    else if is_member arg (text "-c" ∷ text "--show-cmd" ∷ [])
    then ok (record opts { show_cmd = true }, flag)
    else if is_member arg (text "-u" ∷ text "--show-user" ∷ [])
    then ok (record opts { show_user = true }, flag)
    else if is_member arg (text "-p" ∷ text "--show-pid" ∷ [])
    then ok (record opts { show_pid = true }, flag)
    else if is_member arg (text "-a" ∷ text "--show-all" ∷ [])
    then ok (record opts { show_cmd = true; show_user = true; show_pid = true }, flag)
    else if is_member arg (text "--latency-display" ∷ [])
    then ok (opts, latency)
    else if is_member arg (text "--no-latency" ∷ text "--hide-latency" ∷ [])
    then ok (record opts { latency_display = some false }, flag)
    else if is_member arg (text "--gpuname-width" ∷ [])
    then ok (opts, name_width)
    else if is_member arg (text "--backend-socket" ∷ text "--backend-uds" ∷ [])
    then ok (opts, socket)
    else err (unsupported arg)

module _ (parse_interval : Text → Option ℕ) where
  -- The options with a value that a flag has asked for.
  unfoldable pub value_step : Expect → CliOptions → Text → Result (CliOptions × Expect) ArgsError
  unfolding flag_step parse_bool
  value_step flag opts arg = flag_step opts arg
  value_step interval opts arg =
      if starts_with_char b'-' arg then flag_step opts arg else elim (parse_interval arg) [
        | none ↦ err invalid_interval
        | some millis ↦ ok (record opts { refresh_interval = millis }, flag)
      ]
  value_step node opts arg = ok (record opts { node_filter = some arg }, flag)
  value_step user opts arg = ok (record opts { user_filter = some arg }, flag)
  value_step latency opts arg = elim (parse_bool arg) [
    | err e ↦ err e
    | ok shown ↦ ok (record opts { latency_display = some shown }, flag)
  ]
  value_step name_width opts arg = elim (parse_uint (2 ^ 64) arg) [
    | none ↦ err invalid_width
    | some width ↦ ok (record opts { gresname_width = some width }, flag)
  ]
  value_step socket opts arg = ok (record opts { backend_socket = some arg }, flag)

  -- The loop: what the next argument is, and the arguments that are left.
  unfoldable pub parse_from : Expect → CliOptions → List Text → Result CliOptions ArgsError
  unfolding value_step
  parse_from flag opts [] = ok opts
  parse_from interval opts [] = ok opts
  parse_from expect opts [] = err value_required
  parse_from expect opts (arg ∷ args) =
      value_step expect opts arg >>= λ next. parse_from next.1 next.0 args

  unfoldable pub parse_args : List Text → Result CliOptions ArgsError
  unfolding parse_from
  parse_args args = parse_from flag default_options args >>= λ opts.
      if opts.force_color && opts.no_color
      then err color_conflict
      else if opts.watch && opts.json
      then err watch_conflict
      else ok opts

-- A path that is not blank, without the space around it.
abbrev named_path : Option Text → Option Text
named_path none = none
named_path (some path) = if is_empty (trim path) then none else some (trim path)

-- `backend_socket_from_options`, of the options, the variable and the configured path.
unfoldable pub backend_socket_from_options : CliOptions → Option Text → Option Text → Text
backend_socket_from_options opts variable configured = elim (named_path opts.backend_socket) [
  | some path ↦ path
  | none ↦ elim (named_path variable) [
    | some path ↦ path
    | none ↦ elim (named_path configured) [
      | some path ↦ path
      | none ↦ text "/run/clustat/client.sock"
    ]
  ]
]

-- `latency_display_from_options`, of the options and of the configured value.
unfoldable pub latency_display_from_options : CliOptions → Option Bool → Bool
latency_display_from_options opts configured = elim opts.latency_display [
  | some shown ↦ shown
  | none ↦ elim configured [ some shown ↦ shown | none ↦ true ]
]
