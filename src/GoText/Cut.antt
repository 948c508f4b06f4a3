-- ===== src/GoText/Cut.antt =====
-- More of Go's `strings`: prefixes, sets of characters to trim, the first separator, lines.
use Prim.Native.Char.{Char, code}
use Prim.Native.String.{[], ◌∷◌, ◌++◌}
use mathlib.Core.List.{List, [] as nil, ◌∷◌ as ◌::◌}
use p2pt_server.GoText.{is_space, strip_prefix?}
use p2pt_server.Prelude.{
  get_or, zero, suc, ℕ, String, Bool, Option, none, some, ◌||◌, ◌==◌, eqb, is_some, if◌then◌else◌,
}

-- strings.HasPrefix(s, p)
unfoldable pub has_prefix : String → String → Bool
unfolding strip_prefix?
has_prefix p s = is_some (strip_prefix? p s)

-- strings.TrimPrefix and the like: the characters of the set at the front are dropped
unfoldable pub drop_set : (ℕ → Bool) → String → String
drop_set p [] = []
drop_set p (c ∷ s) = let rest = drop_set p s in if p (code c) then rest else c ∷ s

abbrev pub glue_set : (ℕ → Bool) → Char → String → String
glue_set p c [] = if p (code c) then [] else c ∷ []
glue_set p c (d ∷ s) = c ∷ d ∷ s

unfoldable pub drop_set_last : (ℕ → Bool) → String → String
drop_set_last p [] = []
drop_set_last p (c ∷ s) = glue_set p c (drop_set_last p s)

-- strings.Trim(s, cutset)
unfoldable pub trim_set : (ℕ → Bool) → String → String
unfolding drop_set drop_set_last
trim_set p s = drop_set_last p (drop_set p s)

abbrev behind : Char → Option (String × String) → Option (String × String)
behind c none = none
behind c (some (a, b)) = some (c ∷ a, b)

-- strings.SplitN(s, c, 2) for a separator of one character: the two parts, or `none` if there is one
unfoldable pub cut : Char → String → Option (String × String)
cut c [] = none
cut c (d ∷ s) = let rest = cut c s in if eqb (code d) (code c) then some ([], s) else behind d rest

-- Each line, with a line feed behind it.
unfoldable pub unlines : List String → String
unlines nil = []
unlines (l :: ls) = l ++ ("\n" ∷ unlines ls)

-- strings.TrimSuffix(s, p)
unfoldable pub trim_suffix : String → String → String
trim_suffix p [] = []
trim_suffix p (c ∷ s) = let rest = trim_suffix p s in if p == (c ∷ s) then [] else c ∷ rest

-- strings.Contains(s, p)
unfoldable pub contains : String → String → Bool
unfolding has_prefix
contains p [] = p == ""
contains p (c ∷ s) = has_prefix p (c ∷ s) || contains p s

-- strings.ToLower, given unicode.ToLower
unfoldable pub lower : (Char → Char) → String → String
lower to_lower [] = []
lower to_lower (c ∷ s) = to_lower c ∷ lower to_lower s

-- len(s) of an ASCII text
unfoldable pub size : String → ℕ
size [] = 0
size (c ∷ s) = suc (size s)

-- s[:n] of an ASCII text
unfoldable pub take : ℕ → String → String
take zero s = []
take (suc n) [] = []
take (suc n) (c ∷ s) = c ∷ take n s

abbrev word_ended : String → List String → List String
word_ended [] ws = ws
word_ended (c ∷ w) ws = (c ∷ w) :: ws

-- The word at the front, and the later ones.
unfoldable pub words : String → String × List String
words [] = ([], nil)
words (c ∷ s) =
    let rest = words s in
    if is_space (code c) then ([], word_ended rest.0 rest.1) else (c ∷ rest.0, rest.1)

-- strings.Fields
unfoldable pub fields : String → List String
unfolding words
fields s = word_ended (words s).0 (words s).1

-- What follows the first occurrence of a text: s[strings.Index(s, p)+len(p):]
unfoldable pub after_first : String → String → Option String
unfolding strip_prefix?
after_first p [] = strip_prefix? p []
after_first p (c ∷ s) =
    let rest = after_first p s in elim (strip_prefix? p (c ∷ s)) [ some t ↦ some t | none ↦ rest ]

-- strings.TrimPrefix(s, p)
unfoldable pub trim_prefix : String → String → String
unfolding strip_prefix?
trim_prefix p s = get_or s (strip_prefix? p s)
