-- ===== src/Compat/Version.antt =====
-- internal/compat/evaluate.go, `parseSemver`: how a version text is put in the form that the
-- package semver reads. Text is walked character by character.
use Prim.Native.Char.{code}
use mirops.Prelude.{
  ℕ, ◌≡◌, refl, String, ◌<>◌, Bool, true, false, ◌&&◌, ◌||◌, Option, none, some, eqb, leb,
  if◌then◌else◌,
}
use mirops.Compat.{Semver}

-- `unicode.IsSpace`.
is_space : ℕ → Bool
is_space c =
    (leb 9 c && leb c 13)
    || (eqb c 32
        || (eqb c 133
            || (eqb c 160
                || (eqb c 5760
                    || ((leb 8192 c && leb c 8202)
                        || (eqb c 8232
                            || (eqb c 8233 || (eqb c 8239 || (eqb c 8287 || eqb c 12288)))))))))

unfoldable pub trim_left : String → String
unfolding is_space
trim_left String.[] = String.[]
trim_left (String.◌∷◌ c s) = elim (is_space (code c)) [
  | true ↦ trim_left s
  | false ↦ String.◌∷◌ c s
]

is_blank : String → Bool
unfolding is_space
is_blank String.[] = true
is_blank (String.◌∷◌ c s) = let rest = is_blank s in if is_space (code c) then rest else false

unfoldable pub trim_right : String → String
unfolding is_blank
trim_right String.[] = String.[]
trim_right (String.◌∷◌ c s) =
    let rest = trim_right s in if is_blank (String.◌∷◌ c s) then String.[] else String.◌∷◌ c rest

-- `strings.TrimPrefix(s, "v")`
unfoldable pub trim_v : String → String
trim_v String.[] = String.[]
trim_v (String.◌∷◌ c s) = if eqb (code c) b'v' then s else String.◌∷◌ c s

-- The text in front of the first such character, and what follows it.
unfoldable pub cut : ℕ → String → String × Option String
cut sep String.[] = (String.[], none)
cut sep (String.◌∷◌ c s) =
    let (before, after) = cut sep s in
    if eqb (code c) sep then (String.[], some s) else (String.◌∷◌ c before, after)

-- `strings.SplitN(s, ".", 3)`, padded with "0" to three parts.
unfoldable pub three_parts : String → String × String × String
unfolding cut
three_parts s = second (cut b'.' s)
  where
    third : String → String × Option String → String × String × String
    third major (minor, none) = (major, minor, "0")
    third major (minor, some patch) = (major, minor, patch)

    second : String × Option String → String × String × String
    second (major, none) = (major, "0", "0")
    second (major, some rest) = third major (cut b'.' rest)

unfoldable pub normalize : String → String
unfolding trim_left trim_right trim_v cut three_parts
normalize v =
    let v = trim_v (trim_right (trim_left v)) in
    let (v, build) = cut b'+' v in
    let (major, minor, patch) = three_parts v in major <> "." <> minor <> "." <> patch

unfoldable pub parse_semver : (V : Semver) → String → Option V.Version
unfolding normalize
parse_semver V v = V.parse (normalize v)

-- The forms that the source names.
normalize_forms :
    (normalize "v1.30.1" ≡ "1.30.1")
    × (normalize "1.31" ≡ "1.31.0")
    × (normalize "1.21.4-distroless" ≡ "1.21.4-distroless")
    × (normalize " v1.30.1+k3s1 " ≡ "1.30.1")
    × (normalize "1" ≡ "1.0.0")
unfolding normalize
normalize_forms = (refl, refl, refl, refl, refl)
