-- ===== src/Collector/Addons/Tags.antt =====
-- What the tag of an image reference is.
use Prim.Native.Char.{Char, code}
use Prim.Native.String.{String}
use text.Mathlib.TextLemmas.{nil-append, cons-append}
use mirops.Prelude.{
  ℕ, ◌≡◌, refl, sym, ap, ◌∙◌, ◌<>◌, Bool, true, false, Option, none, some, eqb, if◌then◌else◌,
  Bool-cases, ◌⊎◌, inl, inr,
}
use mirops.Compat.Version.{cut}
use mirops.Collector.Addons.{after_last, tag_of, image_tag}

-- The text has the character.
unfoldable pub has : ℕ → String → Bool
has sep String.[] = false
has sep (String.◌∷◌ c s) = let later = has sep s in if eqb (code c) sep then true else later

pub has-cons :
    (sep : ℕ) (c : Char) (s : String)
    → has sep (String.◌∷◌ c s) ≡ false
    → (eqb (code c) sep ≡ false) × (has sep s ≡ false)
unfolding has
has-cons sep c s h = elim (Bool-cases (eqb (code c) sep)) [
  | inl e ↦ cc (h, ap (λ b. if b then true else has sep s) e)
  | inr e ↦ (e, sym (ap (λ b. if b then true else has sep s) e) ∙ h)
]

chosen :
    (b : Bool) (x y : String × Option String)
    → ((b ≡ true → (if b then x else y).0 ≡ x.0) × (b ≡ false → (if b then x else y).0 ≡ y.0))
chosen true x y = (λ e. refl, λ e. cc e)
chosen false x y = (λ e. cc e, λ e. refl)

cut_later :
    (sep : ℕ) (d : Char) (u : String)
    → eqb (code d) sep ≡ false
    → (cut sep (String.◌∷◌ d u)).0 ≡ String.◌∷◌ d (cut sep u).0
unfolding cut
cut_later sep d u =
    (chosen (eqb (code d) sep) (String.[], some u) (String.◌∷◌ d (cut sep u).0, (cut sep u).1)).1

-- Where the separator stands behind a text that has none.
cut-append :
    (sep : ℕ) (s : String) (c : Char) (t : String)
    → has sep s ≡ false
    → eqb (code c) sep ≡ true
    → (cut sep (s <> String.◌∷◌ c t)).0 ≡ s
unfolding cut
cut-append sep String.[] c t h e = rw (nil-append (String.◌∷◌ c t)) (
    (chosen (eqb (code c) sep) (String.[], some t) (String.◌∷◌ c (cut sep t).0, (cut sep t).1)).0 e)
cut-append sep (String.◌∷◌ d s) c t h e =
    let (apart, rest) = has-cons sep d s h in
    rw (cons-append d s (String.◌∷◌ c t)) (
      cut_later sep d (s <> String.◌∷◌ c t) apart
      ∙ ap (λ r. String.◌∷◌ d r) (cut-append sep s c t rest e))

cut_none : (sep : ℕ) (s : String) → has sep s ≡ false → (cut sep s).0 ≡ s
unfolding cut
cut_none sep String.[] h = refl
cut_none sep (String.◌∷◌ d s) h =
    let (apart, rest) = has-cons sep d s h in
    cut_later sep d s apart ∙ ap (λ r. String.◌∷◌ d r) (cut_none sep s rest)

pub after_last-none : (sep : ℕ) (s : String) → has sep s ≡ false → after_last sep s ≡ none
unfolding after_last
after_last-none sep String.[] h = refl
after_last-none sep (String.◌∷◌ d s) h =
    let (apart, rest) = has-cons sep d s h in
    rw (after_last-none sep s rest, after_last) (ap (λ b. if b then some s else none) apart)

after_last-append :
    (sep : ℕ) (s : String) (c : Char) (t : String)
    → has sep t ≡ false
    → eqb (code c) sep ≡ true
    → after_last sep (s <> String.◌∷◌ c t) ≡ some t
unfolding after_last
after_last-append sep String.[] c t h e =
    rw (nil-append (String.◌∷◌ c t), after_last, after_last-none sep t h)
      (ap (λ b. if b then some t else none) e)
after_last-append sep (String.◌∷◌ d s) c t h e =
    rw (cons-append d s (String.◌∷◌ c t), after_last, after_last-append sep s c t h e) refl

-- A text without a colon, a slash or an at sign, such as a tag or the last part of a path.
pub record IsPlain (tag : String) : Type 0 where
  pub no_colon : has b':' tag ≡ false
  pub no_slash : has b'/' tag ≡ false
  pub no_at : has b'@' tag ≡ false

has-append :
    (sep : ℕ) (s t : String) → has sep s ≡ false → has sep t ≡ false → has sep (s <> t) ≡ false
unfolding has
has-append sep String.[] t h k = rw (nil-append t) k
has-append sep (String.◌∷◌ c s) t h k =
    let (apart, rest) = has-cons sep c s h in
    rw (cons-append c s t, has)
      (ap (λ b. if b then true else has sep (s <> t)) apart ∙ has-append sep s t rest k)

in_front : (c : Char) (t : String) → String.◌∷◌ c String.[] <> t ≡ String.◌∷◌ c t
in_front c t = cons-append c String.[] t ∙ ap (λ r. String.◌∷◌ c r) (nil-append t)

tag_at_end : (repo tag : String) → IsPlain tag → tag_of (repo <> (":" <> tag)) ≡ tag
unfolding tag_of
tag_at_end repo tag h =
    rw
      (
        in_front ":" tag,
        tag_of,
        after_last-append b':' repo ":" tag h.no_colon refl,
        after_last-none b'/' tag h.no_slash,
      )
      refl

-- The text behind the last separator ends with what follows the text.
after_last-keeps :
    (sep : ℕ) (s t : String)
    → has sep t ≡ false
    → (after_last sep (s <> t) ≡ none) ⊎ ((r : String) × (after_last sep (s <> t) ≡ some (r <> t)))
unfolding after_last
after_last-keeps sep String.[] t h = inl (rw (nil-append t) (after_last-none sep t h))
after_last-keeps sep (String.◌∷◌ c s) t h = elim (after_last-keeps sep s t h) [
  | inl e ↦ elim (Bool-cases (eqb (code c) sep)) [
    | inl f ↦
        inr
          (s, rw (cons-append c s t, after_last, e) (ap (λ b. if b then some (s <> t) else none) f))
    | inr f ↦
        inl (rw (cons-append c s t, after_last, e) (ap (λ b. if b then some (s <> t) else none) f))
  ]
  | inr (r, e) ↦ inr (r, rw (cons-append c s t, after_last, e) refl)
]

port_is_no_tag :
    (host path : String)
    → has b':' path ≡ false
    → has b'/' path ≡ false
    → tag_of (host <> ("/" <> path)) ≡ ""
unfolding tag_of has
port_is_no_tag host path h k =
    rw (in_front "/" path) (elim (after_last-keeps b':' host (String.◌∷◌ "/" path) h) [
      | inl e ↦ rw (tag_of, e) refl
      | inr (r, e) ↦ rw (tag_of, e, after_last-append b'/' r "/" path k refl) refl
    ])

no_at_signs : (has b'@' ":" ≡ false) × (has b'@' "/" ≡ false)
unfolding has
no_at_signs = (refl, refl)

-- If the repository has no at sign and the tag no separator, then the tag that an image reference is
-- written with is read back, with and without a digest behind it; and a reference that ends with a
-- slash and a text without separators has no tag, whatever colons stand in front.
pub image_tag_lem :
    (repo path tag digest : String)
    → has b'@' repo ≡ false
    → IsPlain tag
    → IsPlain path
    → (image_tag (repo <> (":" <> tag)) ≡ tag)
      × (image_tag ((repo <> (":" <> tag)) <> ("@" <> digest)) ≡ tag)
      × (image_tag (repo <> ("/" <> path)) ≡ "")
      × (image_tag ((repo <> ("/" <> path)) <> ("@" <> digest)) ≡ "")
unfolding image_tag
image_tag_lem repo path tag digest n h k =
    let tagged =
      has-append b'@' repo (":" <> tag) n (has-append b'@' ":" tag no_at_signs.0 h.no_at) in
    let plain =
      has-append b'@' repo ("/" <> path) n (has-append b'@' "/" path no_at_signs.1 k.no_at) in
    (
      ap tag_of (cut_none b'@' _ tagged) ∙ tag_at_end repo tag h,
      rw (in_front "@" digest)
          (ap tag_of (cut-append b'@' _ "@" digest tagged refl) ∙ tag_at_end repo tag h),
      ap tag_of (cut_none b'@' _ plain) ∙ port_is_no_tag repo path k.no_colon k.no_slash,
      rw (in_front "@" digest) (
          ap tag_of (cut-append b'@' _ "@" digest plain refl)
          ∙ port_is_no_tag repo path k.no_colon k.no_slash),
    )
