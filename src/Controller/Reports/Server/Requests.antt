-- ===== src/Controller/Reports/Server/Requests.antt =====
-- The requests for the reports of a resource: their names lead back to it.
use Prim.Native.Char.{Char}
use mathlib.Core.List.{foldl, reverse}
use text.Mathlib.TextLemmas.{nil-append, cons-append}
use mirops.Prelude.{
  ℕ, suc, ◌+◌, ◌≡◌, ◌≢◌, refl, ap, ◌∙◌, String, ◌<>◌, false, ◌==◌, if◌then◌else◌, if_cases,
  Bool-cases, inl, inr, arith, eq_of_==, ==_refl, apart, [],
}
use mirops.Prelude.Text.{trim_suffix}
use mirops.Collector.Addons.Tags.{has, has-cons, after_last-none}
use mirops.Controller.Paths.{
  trim_slashes, or_root, base, is_rooted, between, clean, join, enter, parts,
}
use mirops.Controller.Reports.{report_ext}
use mirops.Controller.Reports.Names.{IsFileName}
use mirops.Controller.Reports.Server.{cr_name_of}

size : String → ℕ
size String.[] = 0
size (String.◌∷◌ c s) = suc (size s)

size-append : (s t : String) → size (s <> t) ≡ size s + size t
unfolding size
size-append String.[] t = rw (nil-append t, size) (omega arith)
size-append (String.◌∷◌ c s) t = rw (cons-append c s t, size, size-append s t) (omega arith)

longer : (c : Char) (s p : String) → (String.◌∷◌ c (s <> p) == p) ≡ false
unfolding size
longer c s p = elim (Bool-cases (String.◌∷◌ c (s <> p) == p)) [
  | inl same ↦
      let e : suc (size (s <> p)) ≡ size p = ap size (eq_of_== (String.◌∷◌ c (s <> p)) p same) in
      let no : ⊥ = omega (arith, e, size-append s p) in elim no [ ]
  | inr other ↦ other
]

-- The extension, and no more, is taken off.
trim_suffix-append : (s c : String) → s ≢ "" → trim_suffix s (c <> s) ≡ c
unfolding trim_suffix
trim_suffix-append String.[] c full = elim (full refl) [ ]
trim_suffix-append (String.◌∷◌ d t) String.[] full =
    rw (nil-append (String.◌∷◌ d t), trim_suffix)
      (ap (λ b. if b then String.[] else String.◌∷◌ d (trim_suffix (String.◌∷◌ d t) t))
        (==_refl (String.◌∷◌ d t)))
trim_suffix-append (String.◌∷◌ d t) (String.◌∷◌ c r) full =
    let s = String.◌∷◌ d t in
    rw (cons-append c r s, trim_suffix)
      (ap (λ b. if b then String.[] else String.◌∷◌ c (trim_suffix s (r <> s))) (longer c r s)
        ∙ ap (String.◌∷◌ c) (trim_suffix-append s r full))

trim_slashes-none : (s : String) → has b'/' s ≡ false → trim_slashes s ≡ s
unfolding trim_slashes
trim_slashes-none String.[] h = refl
trim_slashes-none (String.◌∷◌ c s) h =
    let (other, rest) = has-cons b'/' c s h in
    rw (trim_slashes, other, trim_slashes-none s rest) refl

pub base-name : (s : String) → IsFileName s → base s ≡ s
unfolding base
base-name s (plain, full, dot, dots) =
    let filled : (s == "") ≡ false = ground arith in
    let part = trim_slashes-none s plain in
    rw (base, filled, part, after_last-none b'/' s plain)
      (ap or_root part ∙ ap (λ b. if b then "/" else s) filled)

rooted_full : (s : String) → "/" <> s ≢ ""
unfolding size
rooted_full s e =
    let long : size ("/" <> s) ≡ 1 + size s = size-append "/" s in
    let short : size ("/" <> s) ≡ 0 = ap size e in omega (arith, long, short)

clean-full : (path : String) → clean path ≢ ""
unfolding clean
clean-full path =
    let body = between (reverse (foldl (enter (is_rooted path)) [] (parts path))) in
    if_cases (λ t. t ≢ "") (is_rooted path) ("/" <> body) (if body == "" then "." else body)
      (λ root. rooted_full body)
      (λ other.
        if_cases (λ t. t ≢ "") (body == "") "." body (λ nothing e. cc)
          (λ filled. apart body "" filled))

pub join-full : (dir name : String) → name ≢ "" → join dir name ≢ ""
unfolding join
join-full dir name full =
    if_cases (λ t. t ≢ "") (dir == "") (if name == "" then "" else clean name)
      (clean (dir <> ("/" <> name)))
      (λ none.
        if_cases (λ t. t ≢ "") (name == "") "" (clean name)
          (λ nothing. elim (full (eq_of_== name "" nothing)) [ ]) (λ some. clean-full name))
      (λ some. clean-full (dir <> ("/" <> name)))

pub cr_name_of-ext :
    (name : String) → trim_suffix ".json" name ≡ name → cr_name_of (name <> report_ext) ≡ name
unfolding cr_name_of
cr_name_of-ext name h = ap (trim_suffix ".json") (trim_suffix-append report_ext name (λ e. cc)) ∙ h
