-- ===== src/GoText/Lines.antt =====
-- Texts of lines, and what trimming leaves of a joined text.
use Prim.Native.Char.{Char, code}
use Prim.Native.String.{[], ◌∷◌, ◌++◌}
use Prim.Native.String.append
use mathlib.Core.List.{List, [] as nil, ◌∷◌ as ◌::◌, ◌++◌ as ◌+++◌}
use p2pt_server.GoText.{is_space, glue_space, split, trim_left, trim_right, trim_space}
use p2pt_server.GoText.Cut.{cut, unlines, size}
use p2pt_server.GoText.Pieces.{Free, split-append}
use p2pt_server.GoText.Trim.{trim_right-trim_right}
use p2pt_server.Prelude.{
  suc, ◌+◌, String, true, false, false≢true, some, ◌≡◌, ◌≢◌, refl, sym, ◌∙◌, ap, arith,
}

glue_space-ne : (c : Char) (s : String) → s ≢ [] → glue_space c s ≡ c ∷ s
glue_space-ne c [] h = absurd (h refl)
glue_space-ne c (d ∷ s) h = refl

append-ne : (a b : String) → b ≢ [] → (a ++ b) ≢ []
append-ne [] b h = rw append.nil h
append-ne (c ∷ a) b h = λ e. cc (append.cons c a b, e)

-- Only the end of a joined text is trimmed, if something is left of it.
pub trim_right-append : (a b : String) → trim_right b ≢ [] → trim_right (a ++ b) ≡ a ++ trim_right b
unfolding trim_right
trim_right-append [] b h = ap trim_right (append.nil b) ∙ sym (append.nil (trim_right b))
trim_right-append (c ∷ a) b h =
    ap trim_right (append.cons c a b)
    ∙ ap (glue_space c) (trim_right-append a b h)
    ∙ glue_space-ne c (a ++ trim_right b) (append-ne a (trim_right b) h)
    ∙ sym (append.cons c a (trim_right b))

-- A character that is no space keeps what stands in front of it from the trimming.
pub trim_right-cons :
    (c : Char) (s : String)
    → is_space (code c) ≡ false
    → trim_right s ≡ s
    → trim_right (c ∷ s) ≡ c ∷ s
unfolding trim_right
trim_right-cons c [] f h = rw f refl
trim_right-cons c (d ∷ s) f h = ap (glue_space c) h

pub trim_right_of_trimmed : (s : String) → trim_space s ≡ s → trim_right s ≡ s
unfolding trim_space
trim_right_of_trimmed s h = ap trim_right (sym h) ∙ trim_right-trim_right (trim_left s) ∙ h

pub cut-append : (c : Char) (a s : String) → Free c a → cut c (a ++ (c ∷ s)) ≡ some (a, s)
unfolding cut
cut-append c [] s f = rw append.nil (ground arith)
cut-append c (d ∷ a) s f = rw append.cons (rw (f.0, cut-append c a s f.1) refl)

-- No line feed stands in a line.
abbrev pub AreLines : List String → Type 0
AreLines nil = Unit
AreLines (l :: ls) = Free "\n" l × AreLines ls

pub split-unlines : (ls : List String) → AreLines ls → split "\n" (unlines ls) ≡ ls +++ ([] :: nil)
unfolding split unlines
split-unlines nil f = refl
split-unlines (l :: ls) f =
    split-append "\n" l (unlines ls) f.0 ∙ ap (λ (r : List String). l :: r) (split-unlines ls f.1)

append_assoc : (a b d : String) → (a ++ b) ++ d ≡ a ++ (b ++ d)
append_assoc [] b d = ap (λ (s : String). s ++ d) (append.nil b) ∙ sym (append.nil (b ++ d))
append_assoc (c ∷ a) b d =
    ap (λ (s : String). s ++ d) (append.cons c a b)
    ∙ append.cons c (a ++ b) d
    ∙ ap (λ (s : String). c ∷ s) (append_assoc a b d)
    ∙ sym (append.cons c a (b ++ d))

-- The last line ends in no space, and is not empty.
abbrev pub EndsTrimmed : List String → Type 0
EndsTrimmed nil = false ≡ true
EndsTrimmed (l :: nil) = (trim_right (l ++ "\n") ≡ l) × (l ≢ [])
EndsTrimmed (l :: m :: ls) = EndsTrimmed (m :: ls)

-- What trimming takes from the last line, its line feed, is put back.
trim_right-both :
    (ls : List String)
    → EndsTrimmed ls
    → (trim_right (unlines ls) ++ "\n" ≡ unlines ls) × (trim_right (unlines ls) ≢ [])
unfolding unlines trim_right
trim_right-both nil e = absurd (false≢true e)
trim_right-both (l :: nil) e = (ap (λ (s : String). s ++ "\n") e.0, λ q. e.1 (sym e.0 ∙ q))
trim_right-both (l :: m :: ls) e =
    let u = unlines (m :: ls) in
    let ih = trim_right-both (m :: ls) e in
    let glued = glue_space-ne "\n" (trim_right u) ih.1 in
    let joined = trim_right-append l ("\n" ∷ u) (λ q. cc (sym glued ∙ q)) in
    let whole = joined ∙ ap (λ (s : String). l ++ s) glued in
    (
      ap (λ (s : String). s ++ "\n") whole
          ∙ append_assoc l ("\n" ∷ trim_right u) "\n"
          ∙ ap (λ (s : String). l ++ s)
              (append.cons "\n" (trim_right u) "\n" ∙ ap (λ (s : String). "\n" ∷ s) ih.0),
      λ q. append-ne l ("\n" ∷ trim_right u) (λ r. cc r) (sym whole ∙ q),
    )

pub trim_right-unlines :
    (ls : List String) → EndsTrimmed ls → trim_right (unlines ls) ++ "\n" ≡ unlines ls
trim_right-unlines ls e = (trim_right-both ls e).0

pub trim_left-append :
    (c : Char) (a s : String) → is_space (code c) ≡ false → trim_left ((c ∷ a) ++ s) ≡ (c ∷ a) ++ s
unfolding trim_left
trim_left-append c a s f = rw append.cons (rw f refl)

pub size-append : (a b : String) → size (a ++ b) ≡ size a + size b
unfolding size
size-append [] b = ap size (append.nil b) ∙ omega arith
size-append (c ∷ a) b = ap size (append.cons c a b) ∙ ap suc (size-append a b) ∙ omega arith
