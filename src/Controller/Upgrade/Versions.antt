-- ===== src/Controller/Upgrade/Versions.antt =====
-- internal/controller/upgradeanalysis_controller.go, `versionIsHigher`: how the parts of a version are
-- read, and which of two versions is higher.
use Prim.Native.Char.{Char, code}
use Prim.Native.String.{String}
use text.Mathlib.TextLemmas.{nil-append, cons-append, append-nil}
use mirops.Prelude.{
  ℕ, ◌+◌, ◌*◌, ◌^◌, ◌-◌, ◌<◌, ◌≡◌, refl, sym, ap, ◌∙◌, ◌<>◌, Bool, true, false, Option, none, some,
  eqb, ltb, ◌&&◌, ◌||◌, if◌then◌else◌, Bool-cases, inl, inr, arith,
}
use mirops.Prelude.Int.{pos}
use mirops.Prelude.Text.{decimal}
use mirops.Prelude.Text.Digits.{IsDigit, decimal-P}
use mirops.Collector.Addons.Tags.{has, has-cons}
use mirops.Compat.Version.{trim_v, cut}
use mirops.Controller.Upgrade.{
  is_digit, digits_value, atoi, minor_of, major_minor, version_is_higher,
}

digits_value-cons :
    (a b : ℕ) (c : Char) (s : String)
    → digits_value a (String.◌∷◌ c s) ≡ some b
    → (is_digit (code c) ≡ true) × (digits_value (10 * a + (code c - 48)) s ≡ some b)
unfolding digits_value
digits_value-cons a b c s h = elim (Bool-cases (is_digit (code c))) [
  | inl e ↦ (e, sym (ap (λ t. if t then digits_value (10 * a + (code c - 48)) s else none) e) ∙ h)
  | inr e ↦ cc (h)
]

digits_value-append :
    (s : String) (a b : ℕ) (t : String)
    → digits_value a s ≡ some b
    → digits_value a (s <> t) ≡ digits_value b t
unfolding digits_value
digits_value-append String.[] a b t h =
    rw (nil-append t) (let e : a ≡ b = cc in ap (λ n. digits_value n t) e)
digits_value-append (String.◌∷◌ c s) a b t h =
    let (first, rest) = digits_value-cons a b c s h in
    rw (cons-append c s t, digits_value)
      (ap (λ u. if u then digits_value (10 * a + (code c - 48)) (s <> t) else none) first
        ∙ digits_value-append s _ b t rest)

digits_value-digit :
    (a d : ℕ) (s : String) → d < 10 → IsDigit d s → digits_value a s ≡ some (10 * a + d)
unfolding digits_value
digits_value-digit a d s h (c, one, value) = rw (one) (ground arith)

-- A text that reads as a number has no other characters than digits.
value-has :
    (s : String) (sep a b : ℕ)
    → is_digit sep ≡ false
    → digits_value a s ≡ some b
    → has sep s ≡ false
unfolding has
value-has String.[] sep a b out h = refl
value-has (String.◌∷◌ c s) sep a b out h =
    let (first, rest) = digits_value-cons a b c s h in
    let differs : eqb (code c) sep ≡ false = ground arith in
    ap (λ t. if t then true else has sep s) differs ∙ value-has s sep _ b out rest

decimal-value : (n : ℕ) → digits_value 0 (decimal n) ≡ some n
decimal-value =
    decimal-P (λ n s. digits_value 0 s ≡ some n)
      (λ d s h digit. digits_value-digit 0 d s h digit ∙ ap some (omega arith))
      (λ n d s t ih h digit. digits_value-append s 0 n t ih ∙ digits_value-digit n d t h digit)

atoi-value : (n : ℕ) (s : String) → digits_value 0 s ≡ some n → n < 2 ^ 63 → atoi s ≡ pos n
unfolding atoi digits_value
atoi-value n String.[] h small = let e : 0 ≡ n = cc in ap pos e
atoi-value n (String.◌∷◌ c s) h small =
    let (first, rest) = digits_value-cons 0 n c s h in
    let plus : eqb (code c) 43 ≡ false = ground arith in
    let minus : eqb (code c) 45 ≡ false = ground arith in rw (plus, minus, h) (ap pos (omega arith))

-- Where the separator stands behind a text that has none.
cut-at :
    (sep : ℕ) (s : String) (c : Char) (t : String)
    → has sep s ≡ false
    → eqb (code c) sep ≡ true
    → cut sep (s <> String.◌∷◌ c t) ≡ (s, some t)
unfolding cut
cut-at sep String.[] c t h e =
    rw (nil-append (String.◌∷◌ c t), cut)
      (ap (λ b. if b then (String.[], some t) else (String.◌∷◌ c (cut sep t).0, (cut sep t).1)) e)
cut-at sep (String.◌∷◌ d s) c t h e =
    let (differs, rest) = has-cons sep d s h in
    let later = s <> String.◌∷◌ c t in
    rw (cons-append d s (String.◌∷◌ c t), cut)
      (ap
          (λ b.
            if b
            then (String.[], some later)
            else (String.◌∷◌ d (cut sep later).0, (cut sep later).1))
          differs
        ∙ ap (λ r. (String.◌∷◌ d r.0, r.1)) (cut-at sep s c t rest e))

cut_nowhere : (sep : ℕ) (s : String) → has sep s ≡ false → cut sep s ≡ (s, none)
unfolding cut
cut_nowhere sep String.[] h = refl
cut_nowhere sep (String.◌∷◌ d s) h =
    let (differs, rest) = has-cons sep d s h in
    ap (λ b. if b then (String.[], some s) else (String.◌∷◌ d (cut sep s).0, (cut sep s).1)) differs
    ∙ ap (λ r. (String.◌∷◌ d r.0, r.1)) (cut_nowhere sep s rest)

trim_v-number :
    (n : ℕ) (s t : String)
    → digits_value 0 s ≡ some n
    → trim_v (s <> String.◌∷◌ "." t) ≡ s <> String.◌∷◌ "." t
unfolding trim_v
trim_v-number n String.[] t h = rw (nil-append (String.◌∷◌ "." t)) refl
trim_v-number n (String.◌∷◌ c s) t h =
    let (first, rest) = digits_value-cons 0 n c s h in
    let differs : eqb (code c) 118 ≡ false = ground arith in
    rw (cons-append c s (String.◌∷◌ "." t), trim_v, differs) refl

-- A version as it is written: with a `v` in front or without, and with what follows a second dot or
-- without it.
pub record Written : Type 0 where
  pub v : Bool
  pub major : ℕ
  pub minor : ℕ
  pub patch : Option String

abbrev dotted : Option String → String
dotted none = ""
dotted (some p) = "." <> p

abbrev after_v : Written → String
after_v w = decimal w.major <> ("." <> (decimal w.minor <> dotted w.patch))

abbrev pub version_text : Written → String
version_text w = (if w.v then "v" else "") <> after_v w

-- The two numbers fit 64 bits.
abbrev pub Fits : Written → Type 0
Fits w = (w.major < 2 ^ 63) × (w.minor < 2 ^ 63)

dot : (t : String) → "." <> t ≡ String.◌∷◌ "." t
dot t = rw (cons-append "." String.[] t, nil-append t) refl

trim_v-text : (w : Written) → trim_v (version_text w) ≡ after_v w
unfolding trim_v
trim_v-text w = go w.v
  where
    rest : String
    rest = decimal w.minor <> dotted w.patch

    kept : trim_v (after_v w) ≡ after_v w
    kept = rw (dot rest) (trim_v-number w.major (decimal w.major) rest (decimal-value w.major))

    go : (v : Bool) → trim_v ((if v then "v" else "") <> after_v w) ≡ after_v w
    go true = rw (cons-append "v" String.[] (after_v w), nil-append (after_v w)) refl
    go false = rw (nil-append (after_v w)) kept

no_dot : (n : ℕ) → has 46 (decimal n) ≡ false
no_dot n = value-has (decimal n) 46 0 n refl (decimal-value n)

cut-minor : (n : ℕ) (patch : Option String) → (cut 46 (decimal n <> dotted patch)).0 ≡ decimal n
cut-minor n none =
    rw (append-nil (decimal n)) (ap (λ r. r.0) (cut_nowhere 46 (decimal n) (no_dot n)))
cut-minor n (some p) = rw (dot p) (ap (λ r. r.0) (cut-at 46 (decimal n) "." p (no_dot n) refl))

major_minor-text :
    (w : Written) → Fits w → major_minor (version_text w) ≡ (pos w.major, pos w.minor)
unfolding major_minor
major_minor-text w (major_fits, minor_fits) =
    let rest = decimal w.minor <> dotted w.patch in
    let parts : cut 46 (trim_v (version_text w)) ≡ (decimal w.major, some rest) =
      ap (cut 46) (trim_v-text w)
      ∙ ap (λ t. cut 46 (decimal w.major <> t)) (dot rest)
      ∙ cut-at 46 (decimal w.major) "." rest (no_dot w.major) refl in
    ap (λ r. minor_of (atoi r.0) r.1) parts
    ∙ ap (λ t. (atoi (decimal w.major), atoi t)) (cut-minor w.minor w.patch)
    ∙ ap (λ p. (p, atoi (decimal w.minor)))
        (atoi-value w.major (decimal w.major) (decimal-value w.major) major_fits)
    ∙ ap (λ p. (pos w.major, p))
        (atoi-value w.minor (decimal w.minor) (decimal-value w.minor) minor_fits)

-- For versions as they are written, with numbers of less than 64 bits, the target is higher than the
-- current version exactly if its major number is greater, or the major numbers are equal and its
-- minor number is greater. The numbers are compared by value, not as texts; a `v` in front and what
-- follows the minor number do not count.
pub version_is_higher-text :
    (target current : Written)
    → Fits target
    → Fits current
    → version_is_higher (version_text target) (version_text current) ≡ (
        ltb current.major target.major
        || (eqb target.major current.major && ltb current.minor target.minor))
unfolding version_is_higher
version_is_higher-text target current fits fits' =
    rw (major_minor-text target fits, major_minor-text current fits') (ground arith)
