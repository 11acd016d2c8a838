-- ===== src/Controller/Reports/Names.antt =====
-- The file names of reports.
use Prim.Native.Char.{code}
use text.Mathlib.TextLemmas.{nil-append, cons-append}
use mathlib.Core.Path.{subst}
use mirops.Prelude.{
  ℕ, ◌≡◌, ◌≢◌, refl, sym, ap, ◌∙◌, String, ◌<>◌, true, false, not, ◌&&◌, none, some, eqb, ◌==◌,
  if◌then◌else◌, Bool-cases, if_cases, Option-cases, ◌⊎◌, inl, inr, arith, apart,
}
use mirops.Collector.Addons.{after_last}
use mirops.Collector.Addons.Tags.{has, has-cons}
use mirops.Controller.Paths.{trim_slashes, or_root, base}
use mirops.Controller.Reports.{SourceConfig, source_type_file, report_ext, local_report_name}

-- The name of a file in a directory: one part, which leads nowhere else.
abbrev pub IsFileName : String → Type 0
IsFileName s = (has b'/' s ≡ false) × (s ≢ "") × (s ≢ ".") × (s ≢ "..")

-- Behind the last separator there is none; without a last one there is none at all.
after_last-has :
    (sep : ℕ) (s : String)
    → ((t : String) → after_last sep s ≡ some t → has sep t ≡ false)
      × (after_last sep s ≡ none → has sep s ≡ false)
unfolding after_last has
after_last-has sep String.[] = (λ t eq. cc, λ eq. refl)
after_last-has sep (String.◌∷◌ c s) =
    let (behind, without) = after_last-has sep s in
    elim (Option-cases (after_last sep s)) [
      | inr (u, later) ↦ (
        λ t eq. let e : some u ≡ some t = rw (later, after_last) at eq in behind t (later ∙ e),
        λ eq. let e : some u ≡ none = rw (later, after_last) at eq in cc,
      )
      | inl none_later ↦ elim (Bool-cases (eqb (code c) sep)) [
        | inl here ↦ (
          λ t eq.
              let e : some s ≡ some t = rw (none_later, here, after_last) at eq in
              let same : s ≡ t = cc in subst (λ u. has sep u ≡ false) same (without none_later),
          λ eq. let e : some s ≡ none = rw (none_later, here, after_last) at eq in cc,
        )
        | inr other ↦ (
          λ t eq. let e : none ≡ some t = rw (none_later, other, after_last) at eq in cc,
          λ eq. rw (other, has) (without none_later),
        )
      ]
    ]

pub has-append :
    (sep : ℕ) (s t : String) → has sep s ≡ false → has sep t ≡ false → has sep (s <> t) ≡ false
unfolding has
has-append sep String.[] t h k = rw (nil-append t) k
has-append sep (String.◌∷◌ c s) t h k =
    let (other, rest) = has-cons sep c s h in
    rw (cons-append c s t, has, has-append sep s t rest k, other) refl

-- What `base` gives: the root, or a part without a slash.
-- The root, or a part without a slash.
abbrev IsPart : String → Type 0
IsPart s = (s ≡ "/") ⊎ (has b'/' s ≡ false) × (s ≢ "")

or_root-IsPart : (t : String) → has b'/' t ≡ false → IsPart (or_root t)
or_root-IsPart t h = elim (Bool-cases (t == "")) [
  | inl nothing ↦ inl (ap (λ b. if b then "/" else t) nothing)
  | inr something ↦
      subst IsPart (sym (ap (λ b. if b then "/" else t) something)) (inr (h, apart t "" something))
]

dot-IsPart : IsPart "."
unfolding has
dot-IsPart = inr (refl, λ e. cc)

base-IsPart : (path : String) → IsPart (base path)
unfolding base has
base-IsPart path =
    let (behind, without) = after_last-has b'/' (trim_slashes path) in
    elim (Bool-cases (path == "")) [
      | inl nothing ↦ rw (base, nothing) dot-IsPart
      | inr something ↦ elim (Option-cases (after_last b'/' (trim_slashes path))) [
        | inl none_there ↦
            rw (base, something, none_there)
              (or_root-IsPart (trim_slashes path) (without none_there))
        | inr (t, there) ↦ rw (base, something, there) (or_root-IsPart t (behind t there))
      ]
    ]

ext-apart :
    (name : String)
    → (name <> report_ext ≢ "") × (name <> report_ext ≢ ".") × (name <> report_ext ≢ "..")
ext-apart String.[] = (λ e. cc, λ e. cc, λ e. cc)
ext-apart (String.◌∷◌ c s) =
    let (full, longer, longest) = ext-apart s in
    (
      λ e.
          let split : String.◌∷◌ c (s <> report_ext) ≡ "" = rw (cons-append c s report_ext) at e in
          cc,
      λ e.
          let split : String.◌∷◌ c (s <> report_ext) ≡ "." = rw (cons-append c s report_ext) at e in
          let tail : s <> report_ext ≡ "" = cc in full tail,
      λ e.
          let split : String.◌∷◌ c (s <> report_ext) ≡ ".." =
            rw (cons-append c s report_ext) at e in
          let tail : s <> report_ext ≡ "." = cc in longer tail,
    )

pub ext-IsFileName : (name : String) → has b'/' name ≡ false → IsFileName (name <> report_ext)
unfolding has
ext-IsFileName name h =
    let (full, longer, longest) = ext-apart name in
    (has-append b'/' name report_ext h refl, full, longer, longest)

guarded :
    (last : String)
    → IsPart last
    → (not (last == ".") && (not (last == "..") && not (last == "/"))) ≡ true
    → IsFileName last
guarded last (inl root) h = let other : last ≢ "/" = ground arith in elim (other root) [ ]
guarded last (inr (plain, full)) h = (plain, full, ground arith, ground arith)

-- The file that an analysis or a mirror is written to lies directly in the directory of reports,
-- whatever path the user has set: its name has no slash, is not empty and is neither of the
-- directories "." and "..". This holds if the resource's own name has no slash.
pub local_report_name-IsFileName :
    (name : String) (src : SourceConfig)
    → has b'/' name ≡ false
    → IsFileName (local_report_name name src)
unfolding local_report_name
local_report_name-IsFileName name src h =
    let fallback = ext-IsFileName name h in
    if_cases IsFileName ((src.type == source_type_file) && not (src.path == "")) _
      (name <> report_ext)
      (λ named.
        if_cases IsFileName _ (base src.path) (name <> report_ext)
          (guarded (base src.path) (base-IsPart src.path)) (λ other. fallback))
      (λ unnamed. fallback)
