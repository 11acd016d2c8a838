-- ===== src/Controller/Reports/Server.antt =====
-- internal/controller/reportserver.go: the server of reports.
pub mod Requests
use Prim.Native.Char.{Char, code}
use mirops.Prelude.{
  ℕ, ◌+◌, String, ◌<>◌, Bool, true, false, not, ◌&&◌, ◌||◌, Option, none, some, leb, eqb, ◌==◌,
  if◌then◌else◌, Result, ok, err,
}
use mirops.Prelude.Text.{trim_suffix}
use mirops.Prelude.Maps.{Map}
use mirops.Controller.Paths.{base, join}
use mirops.Controller.Reports.{
  SourceConfig, Exporter, file_exporter, is_remote, local_report_name, report_ext, location,
  build_exporter,
}

-- What a read of a destination gives.
pub data Reading : Type 0 where
  bytes : String → Reading
  missing : Reading
  unreadable : String → Reading

pub data Body : Type 0 where
  text : String → Body
  json : String → Body
  read_error : (location detail : String) → Body

pub record Response : Type 0 where
  pub status : ℕ
  pub body : Body

-- The reads of the server: the destination in a mirror (or else an analysis) of a name, a secret,
-- and what a destination holds. They change nothing.
pub record Reads (State : Type 0) : Type 0 where
  pub get_source : Bool → String → State → Result SourceConfig
  pub get_secret : String → State → Result (Map String)
  pub read : Exporter → State → Reading

-- Unicode's simple folding, as far as its result is a letter from a to z.
fold : ℕ → ℕ
fold c =
    if leb 65 c && leb c 90
    then c + 32
    else if eqb c 383
    then 115
    else if eqb c 8490
    then 107
    else c

-- `strings.EqualFold`, for a second text of letters from a to z.
unfoldable pub equal_fold : String → String → Bool
unfolding fold
equal_fold String.[] String.[] = true
equal_fold String.[] (String.◌∷◌ d t) = false
equal_fold (String.◌∷◌ c s) String.[] = false
equal_fold (String.◌∷◌ c s) (String.◌∷◌ d t) =
    let rest = equal_fold s t in if eqb (fold (code c)) (fold (code d)) then rest else false

abbrev pub kind_mirror : String
kind_mirror = "ClusterMirror"

unfoldable pub cr_name_of : String → String
unfolding trim_suffix
cr_name_of name = trim_suffix ".json" (trim_suffix report_ext name)

abbrev pub plain : ℕ → String → Response
plain status message = record { status = status; body = text message }

module _ {State : Type 0} (R : Reads State) (reports_dir : String) where
  -- Every error of reading the local copy means that it is not there yet.
  abbrev pub local_answer : Reading → Response
  local_answer (bytes b) = record { status = 200; body = json b }
  local_answer missing = plain 404 "report not available yet"
  local_answer (unreadable e) = plain 404 "report not available yet"

  abbrev pub remote_answer : String → Reading → Response
  remote_answer place (bytes b) = record { status = 200; body = json b }
  remote_answer place missing = plain 404 "report not available yet"
  remote_answer place (unreadable e) = record { status = 502; body = read_error place e }

  abbrev pub read_back : Result Exporter → State → Response
  read_back (err e) s = record { status = 502; body = read_error "" e }
  read_back (ok from) s = remote_answer (location from) (R.read from s)

  abbrev pub answer_from : String → Result SourceConfig → State → Response
  answer_from name (err e) s = plain 404 "report not found"
  answer_from name (ok src) s =
      if is_remote src
      then read_back (build_exporter (λ n t. (R.get_secret n t, t)) name src s).0 s
      else local_answer (R.read (file_exporter (join reports_dir (local_report_name name src))) s)

  -- For the path behind "/reports/" and the query's kind.
  unfoldable pub serve_http : String → String → State → Response
  serve_http path kind s =
      let name = base path in
      if (name == ".") || ((name == "/") || (name == ""))
      then plain 400 "report name required"
      else answer_from (cr_name_of name)
          (R.get_source (equal_fold kind kind_mirror) (cr_name_of name) s) s
