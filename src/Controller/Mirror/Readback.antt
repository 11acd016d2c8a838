-- ===== src/Controller/Mirror/Readback.antt =====
-- The server of reports hands out what the reconciler of mirrors has published.
use mathlib.Core.Path.{subst}
use mirops.Prelude.{
  ◌≡◌, ◌≢◌, refl, sym, ap, ◌∙◌, String, ◌<>◌, Bool, true, false, none, ◌==◌, ◌||◌, if◌then◌else◌,
  Bool-cases, inl, inr, Result, ok, err, arith,
}
use mirops.Prelude.Text.{trim_suffix}
use mirops.Prelude.Maps.{Map}
use mirops.Analysis.Mirror.{MirrorReport}
use mirops.Collector.Addons.Tags.{has}
use mirops.Controller.{◌>>=◌}
use mirops.Controller.Paths.{join}
use mirops.Controller.Reports.{
  SourceConfig, Exporter, file_exporter, is_remote, local_report_name, report_ext,
  new_file_exporter, location, with_secret, build_exporter,
}
use mirops.Controller.Reports.Names.{IsFileName, ext-IsFileName, local_report_name-IsFileName}
use mirops.Controller.Reports.Server.{
  bytes, json, Reads, equal_fold, kind_mirror, cr_name_of, plain, local_answer, remote_answer,
  read_back, answer_from, serve_http,
}
use mirops.Controller.Reports.Server.Requests.{base-name, cr_name_of-ext, join-full}
use mirops.Controller.Mirror.{ClusterMirror, MirrorServices}
use mirops.Controller.Mirror.Rebuild.{export_to, publish_report}

-- What is assumed of the client and of the destinations: both sides read the same secrets, which
-- an export does not change, any more than the resources; and a destination gives back what was
-- written to it without an error.
pub record KeepsReports (S : MirrorServices) (R : Reads S.State) (marshal : MirrorReport → String)
    : Type 0 where
  pub secrets : (name : String) (s : S.State) → S.get_secret name s ≡ (R.get_secret name s, s)
  pub secrets_kept :
      (name : String) (to : Exporter) (r : MirrorReport) (s : S.State)
      → R.get_secret name (S.export to r s).1 ≡ R.get_secret name s
  pub sources_kept :
      (mirror : Bool) (name : String) (to : Exporter) (r : MirrorReport) (s : S.State)
      → R.get_source mirror name (S.export to r s).1 ≡ R.get_source mirror name s
  pub written :
      (to : Exporter) (r : MirrorReport) (s : S.State)
      → (S.export to r s).0 ≡ none
      → R.read to (S.export to r s).1 ≡ bytes (marshal r)

unguarded : (s : String) → IsFileName s → ((s == ".") || ((s == "/") || (s == ""))) ≡ false
unfolding has
unguarded s (plain_name, full, dot, dots) =
    let root : s ≢ "/" = λ e.
      (let no : has b'/' "/" ≡ false = subst (λ t. has b'/' t ≡ false) e plain_name in
        let two : true ≡ false = no in cc) in
    ground arith

-- The request for the report of a name reaches its resource.
serve_http-name :
    {State : Type 0} (R : Reads State) (dir name : String) (kind : String) (s : State)
    → has b'/' name ≡ false
    → trim_suffix ".json" name ≡ name
    → serve_http R dir (name <> report_ext) kind s
      ≡ answer_from R dir name (R.get_source (equal_fold kind kind_mirror) name s) s
unfolding serve_http
serve_http-name R dir name kind s plain_name trimmed =
    let is_file = ext-IsFileName name plain_name in
    let file = name <> report_ext in
    let source = R.get_source (equal_fold kind kind_mirror) in
    ap
      (λ n.
        if (n == ".") || ((n == "/") || (n == ""))
        then plain 400 "report name required"
        else answer_from R dir (cr_name_of n) (source (cr_name_of n) s) s)
      (base-name file is_file)
    ∙ ap
        (λ b.
          if b
          then plain 400 "report name required"
          else answer_from R dir (cr_name_of file) (source (cr_name_of file) s) s)
        (unguarded file is_file)
    ∙ ap (λ n. answer_from R dir n (source n s) s) (cr_name_of-ext name trimmed)

module _ (S : MirrorServices) (R : Reads S.State) (marshal : MirrorReport → String)
    (K : KeepsReports S R marshal) where
  abbrev choice :
      Bool → Result Exporter → Result Exporter → S.State → S.State → Result Exporter × S.State
  choice b x y s t = if b then (x, s) else (y, t)

  alike :
      (b : Bool) (x : Result Exporter) (f : Result (Map String) → Result Exporter)
      (m : Result (Map String) × S.State) (k : Result (Map String)) (s : S.State)
      → m ≡ (k, s)
      → choice b x (f m.0) s m.1 ≡ ((choice b x (f k) s s).0, s)
  alike true x f m k s e = refl
  alike false x f m k s e = ap (λ q. (f q.0, q.1)) e

  unmoved :
      (b : Bool) (x : Result Exporter) (f : Result (Map String) → Result Exporter)
      (k l : Result (Map String)) (s t : S.State)
      → k ≡ l
      → (choice b x (f k) s s).0 ≡ (choice b x (f l) t t).0
  unmoved true x f k l s t e = refl
  unmoved false x f k l s t e = ap f e

  -- The exporter as the server builds it.
  abbrev built : String → SourceConfig → S.State → Result Exporter
  built name src s = (build_exporter (λ n t. (R.get_secret n t, t)) name src s).0

  built-same :
      (name : String) (src : SourceConfig) (s : S.State)
      → build_exporter S.get_secret name src s ≡ (built name src s, s)
  unfolding build_exporter
  built-same name src s =
      alike (src.credentials_secret == "") _ (with_secret S.get_secret name src)
        (S.get_secret src.credentials_secret s) _ s (K.secrets src.credentials_secret s)

  built-kept :
      (name : String) (src : SourceConfig) (to : Exporter) (r : MirrorReport) (s : S.State)
      → built name src (S.export to r s).1 ≡ built name src s
  unfolding build_exporter
  built-kept name src to r s =
      unmoved (src.credentials_secret == "") _ (with_secret S.get_secret name src) _ _
        (S.export to r s).1 s (K.secrets_kept src.credentials_secret to r s)

  -- What is served after an export without an error: an answer that does not depend on the name.
  served :
      (cm : ClusterMirror) (to : Exporter) (r : MirrorReport) (s u : S.State) (place : String)
      → has b'/' cm.name ≡ false
      → trim_suffix ".json" cm.name ≡ cm.name
      → R.get_source true cm.name s ≡ ok cm.spec.source
      → export_to S r (ok to) s ≡ ((place, none), u)
      → (u ≡ (S.export to r s).1)
        × (R.read to u ≡ bytes (marshal r))
        × (serve_http R S.reports_dir (cm.name <> report_ext) kind_mirror u
            ≡ answer_from R S.reports_dir cm.name (ok cm.spec.source) u)
  unfolding equal_fold
  served cm to r s u place plain_name trimmed source done =
      let after : u ≡ (S.export to r s).1 = sym (ap (λ p. p.1) done) in
      (
        after,
        subst (λ t. R.read to t ≡ bytes (marshal r)) (sym after)
            (K.written to r s (ap (λ p. p.0.1) done)),
        serve_http-name R S.reports_dir cm.name kind_mirror u plain_name trimmed
            ∙ ap (λ x. answer_from R S.reports_dir cm.name x u)
                (ap (R.get_source true cm.name) after
                  ∙ K.sources_kept true cm.name to r s
                  ∙ source),
      )

  named_file : (path : String) → path ≢ "" → new_file_exporter path ≡ file_exporter path
  unfolding new_file_exporter
  named_file path full =
      let filled : (path == "") ≡ false = ground arith in
      ap (λ b. file_exporter (if b then "/tmp/mirops-report.mirops" else path)) filled

  module _ (cm : ClusterMirror) (r : MirrorReport) (s u : S.State) (place : String)
      (plain_name : has b'/' cm.name ≡ false) (trimmed : trim_suffix ".json" cm.name ≡ cm.name)
      (source : R.get_source true cm.name s ≡ ok cm.spec.source) where
    abbrev Served : Type 0
    Served =
        serve_http R S.reports_dir (cm.name <> report_ext) kind_mirror u
        ≡ record { status = 200; body = json (marshal r) }

    remote-Served :
        (x : Result Exporter)
        → is_remote cm.spec.source ≡ true
        → built cm.name cm.spec.source s ≡ x
        → export_to S r x s ≡ ((place, none), u)
        → Served
    remote-Served (err e) remote made done = let failed = ap (λ p. p.0.1) done in cc
    remote-Served (ok to) remote made done =
        let (after, read, answer) = served cm to r s u place plain_name trimmed source done in
        let again : built cm.name cm.spec.source u ≡ ok to =
          ap (built cm.name cm.spec.source) after
          ∙ built-kept cm.name cm.spec.source to r s
          ∙ made in
        answer
        ∙ ap
            (λ b.
              if b
              then read_back R S.reports_dir (built cm.name cm.spec.source u) u
              else local_answer R S.reports_dir (
                  R.read
                    (file_exporter (join S.reports_dir (local_report_name cm.name cm.spec.source)))
                    u))
            remote
        ∙ ap (λ x. read_back R S.reports_dir x u) again
        ∙ ap (remote_answer R S.reports_dir (location to)) read

    abbrev path : String
    path = join S.reports_dir (local_report_name cm.name cm.spec.source)

    local-Served :
        is_remote cm.spec.source ≡ false
        → export_to S r (ok (new_file_exporter path)) s ≡ ((place, none), u)
        → Served
    local-Served near done =
        let full = (local_report_name-IsFileName cm.name cm.spec.source plain_name).1 in
        let same = named_file path (join-full S.reports_dir _ full) in
        let (after, read, answer) =
          served cm (new_file_exporter path) r s u place plain_name trimmed source done in
        answer
        ∙ ap
            (λ b.
              if b
              then read_back R S.reports_dir (built cm.name cm.spec.source u) u
              else local_answer R S.reports_dir (R.read (file_exporter path) u))
            near
        ∙ ap (λ to. local_answer R S.reports_dir (R.read to u)) (sym same)
        ∙ ap (local_answer R S.reports_dir) read

    -- The request for a mirror's report is answered with the report that was published, byte for
    -- byte, from wherever the mirror sends it: if a report was published without an error, the server
    -- finds the mirror with the same destination, the mirror's name has no slash and does not end in
    -- ".json", and the destinations and secrets are kept as `KeepsReports` says.
    pub publish_report-served : publish_report S cm r s ≡ ((place, none), u) → Served
    unfolding publish_report
    publish_report-served done = elim (Bool-cases (is_remote cm.spec.source)) [
      | inl remote ↦ remote-Served (built cm.name cm.spec.source s) remote refl (
          sym (ap (λ p. export_to S r p.0 p.1) (built-same cm.name cm.spec.source s))
          ∙ sym (
              ap
                (λ b.
                  (if b
                      then build_exporter S.get_secret cm.name cm.spec.source >>= export_to S r
                      else export_to S r (ok (new_file_exporter path)))
                    s)
                remote)
          ∙ done)
      | inr near ↦ local-Served near (
          sym (
            ap
              (λ b.
                (if b
                    then build_exporter S.get_secret cm.name cm.spec.source >>= export_to S r
                    else export_to S r (ok (new_file_exporter path)))
                  s)
              near)
          ∙ done)
    ]
