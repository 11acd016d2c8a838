-- ===== src/Controller/Paths.antt =====
-- What the controllers use of Go's path/filepath.
use Prim.Native.Char.{Char, code}
use mathlib.Core.List.{foldl, reverse}
use mirops.Prelude.{
  ◌≡◌, refl, String, ◌<>◌, Bool, false, ◌||◌, none, some, List, [], ◌∷◌, eqb, ◌==◌, string_dec,
  if◌then◌else◌,
}
use mirops.Collector.Addons.{after_last}

-- The text without the slashes at its end.
unfoldable pub trim_slashes : String → String
trim_slashes String.[] = String.[]
trim_slashes (String.◌∷◌ c s) =
    let rest = trim_slashes s in
    if eqb (code c) b'/' then if rest == "" then "" else String.◌∷◌ c rest else String.◌∷◌ c rest

abbrev pub or_root : String → String
or_root s = if s == "" then "/" else s

-- `filepath.Base`
unfoldable pub base : String → String
unfolding trim_slashes after_last
base path = if path == "" then "." else elim (after_last b'/' (trim_slashes path)) [
  | none ↦ or_root (trim_slashes path)
  | some last ↦ or_root last
]

put_front : Char → List String → List String
put_front c [] = String.◌∷◌ c String.[] ∷ []
put_front c (p ∷ ps) = String.◌∷◌ c p ∷ ps

-- The parts between slashes.
unfoldable pub parts : String → List String
unfolding put_front
parts String.[] = String.[] ∷ []
parts (String.◌∷◌ c s) =
    let rest = parts s in if eqb (code c) b'/' then String.[] ∷ rest else put_front c rest

-- The parts so far, the last one in front.
abbrev pub back : Bool → List String → List String
back rooted [] = if rooted then [] else ".." ∷ []
back rooted (p ∷ ps) = if p == ".." then ".." ∷ p ∷ ps else ps

abbrev pub enter : Bool → List String → String → List String
enter rooted ps p =
    if (p == "") || (p == ".") then ps else if p == ".." then back rooted ps else p ∷ ps

abbrev pub between : List String → String
between [] = ""
between (p ∷ []) = p
between (p ∷ q ∷ ps) = p <> ("/" <> between (q ∷ ps))

abbrev pub is_rooted : String → Bool
is_rooted String.[] = false
is_rooted (String.◌∷◌ c s) = eqb (code c) b'/'

-- `filepath.Clean`
unfoldable pub clean : String → String
unfolding parts
clean path =
    let body = between (reverse (foldl (enter (is_rooted path)) [] (parts path))) in
    if is_rooted path then "/" <> body else if body == "" then "." else body

-- `filepath.Join` of a directory and a name.
unfoldable pub join : String → String → String
unfolding clean
join dir name =
    if dir == "" then if name == "" then "" else clean name else clean (dir <> ("/" <> name))

paths :
    (base "/a/b//" ≡ "b")
    × (base "//" ≡ "/")
    × (base "a" ≡ "a")
    × (join "/mnt/reports/" "../x/./shop.mirops" ≡ "/mnt/x/shop.mirops")
    × (join "a/../.." "b" ≡ "../b")
    × (join "/.." "b" ≡ "/b")
unfolding base join string_dec
paths = (refl, refl, refl, refl, refl, refl)
