-- ===== src/Controller/Reports.antt =====
-- internal/controller/reportdest.go and the locations of internal/exporter: where a report goes.
-- The exporters' transfers belong to the operating system and to the providers of storage.
pub mod Names
pub mod Server
use mirops.Prelude.{
  String, ◌<>◌, Bool, true, false, not, ◌&&◌, ◌||◌, Option, none, some, ◌==◌, if◌then◌else◌, Result,
  ok, err,
}
use mirops.Prelude.Maps.{Map, empty, get_or}
use mirops.Controller.Paths.{base, join}

abbrev pub report_ext : String
report_ext = ".mirops"

abbrev pub report_state_written : String
report_state_written = "written"

abbrev pub report_state_failed : String
report_state_failed = "failed"

abbrev pub source_type_file : String
source_type_file = "file"

abbrev pub source_type_s3 : String
source_type_s3 = "s3"

abbrev pub source_type_blob : String
source_type_blob = "blob"

abbrev source_type_pvc : String
source_type_pvc = "pvc"

pub record SourceConfig : Type 0 where
  pub type : String
  pub path : String
  pub bucket : String
  pub region : String
  pub key : String
  pub account_name : String
  pub container_name : String
  pub blob_name : String
  pub credentials_secret : String

abbrev pub is_remote : SourceConfig → Bool
is_remote src =
    (src.type == source_type_s3)
    || ((src.type == source_type_blob) || (src.type == source_type_pvc))

-- A file name for the directory of reports.
unfoldable pub local_report_name : String → SourceConfig → String
unfolding base
local_report_name name src =
    let last = base src.path in
    if (src.type == source_type_file) && not (src.path == "")
    then if not (last == ".") && (not (last == "..") && not (last == "/"))
      then last
      else name <> report_ext
    else name <> report_ext

report_object_name : String → String → String
report_object_name configured name = if configured == "" then name <> report_ext else configured

-- The exporters.
pub data Exporter : Type 0 where
  s3_exporter : (bucket region key access_key_id secret_access_key : String) → Exporter
  blob_exporter :
      (account_name container_name blob_name client_id client_secret tenant_id : String) → Exporter
  file_exporter : (path : String) → Exporter

unfoldable pub new_file_exporter : String → Exporter
new_file_exporter path = file_exporter (if path == "" then "/tmp/mirops-report.mirops" else path)

unfoldable pub location : Exporter → String
location (s3_exporter bucket region key id secret) = "s3://" <> (bucket <> ("/" <> key))
location (blob_exporter account container blob id secret tenant) =
    "https://" <> (account <> (".blob.core.windows.net/" <> (container <> ("/" <> blob))))
location (file_exporter path) = path

abbrev pvc_directory : String → String
pvc_directory path = if path == "" then "/mnt/mirops-reports" else path

-- With the data of the secret, or nothing if none is named.
unfoldable pub exporter_with : Map String → String → SourceConfig → Exporter
unfolding new_file_exporter report_object_name join
exporter_with data_of name src =
    if src.type == source_type_s3
    then s3_exporter src.bucket src.region (report_object_name src.key name)
        (get_or data_of "AWS_ACCESS_KEY_ID" "") (get_or data_of "AWS_SECRET_ACCESS_KEY" "")
    else if src.type == source_type_blob
    then blob_exporter src.account_name src.container_name (report_object_name src.blob_name name)
        (get_or data_of "AZURE_CLIENT_ID" "") (get_or data_of "AZURE_CLIENT_SECRET" "")
        (get_or data_of "AZURE_TENANT_ID" "")
    else if src.type == source_type_pvc
    then new_file_exporter (join (pvc_directory src.path) (report_object_name "" name))
    else new_file_exporter src.path

module _ {S : Type 0} (get_secret : String → S → Result (Map String) × S) where
  abbrev pub with_secret : String → SourceConfig → Result (Map String) → Result Exporter
  with_secret name src (err e) =
      err ("reading credentials secret \"" <> (src.credentials_secret <> ("\": " <> e)))
  with_secret name src (ok data_of) = ok (exporter_with data_of name src)

  unfoldable pub build_exporter : String → SourceConfig → S → Result Exporter × S
  unfolding exporter_with
  build_exporter name src s =
      let (r, t) = get_secret src.credentials_secret s in
      if src.credentials_secret == ""
      then (ok (exporter_with empty name src), s)
      else (with_secret name src r, t)
