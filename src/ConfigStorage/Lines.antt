-- ===== src/ConfigStorage/Lines.antt =====
-- What loading makes of one saved line.
use Prim.Native.Char.{Char, code}
use Prim.Native.String.{[], ◌∷◌, ◌++◌}
use Prim.Native.String.append
use p2pt_server.ConfigStorage.{
  getenv, setenv, has_nul, is_quote, set_default, load_setting, load_trimmed, setting_line,
}
use p2pt_server.GoMap.{GoMap, put}
use p2pt_server.GoText.{is_space, has_char, trim_left, trim_right, trim_space}
use p2pt_server.GoText.Cut.{has_prefix, trim_set, cut}
use p2pt_server.GoText.Lines.{trim_right-append, trim_right-cons, trim_right_of_trimmed, cut-append}
use p2pt_server.GoText.Pieces.{Free}
use p2pt_server.Net.Dotted.{Free-has_char}
use p2pt_server.Prelude.{
  String, Bool, not, ◌&&◌, Option, some, true, false, false≢true, ==_ne, sym, ◌≡◌, ◌≢◌, refl, ◌∙◌,
  ap, arith, eqb, ◌==◌, if◌then◌else◌, eq_iff,
}

-- A value that a line can hold: without spaces or quotes at its ends, line feeds and null characters.
pub record IsPlain (v : String) : Type 0 where
  pub trimmed : trim_space v ≡ v
  pub unquoted : trim_set is_quote v ≡ v
  pub on_one_line : Free "\n" v
  pub no_nul : has_nul v ≡ false

-- A name that a line can hold.
abbrev pub IsName : String → Type 0
IsName [] = false ≡ true
IsName (c ∷ k) =
    (is_space (code c) ≡ false)
    × (eqb b'#' (code c) ≡ false)
    × (trim_space (c ∷ k) ≡ c ∷ k)
    × Free "=" (c ∷ k)
    × Free "\n" (c ∷ k)
    × (has_nul (c ∷ k) ≡ false)

trim_left-cons : (c : Char) (s : String) → is_space (code c) ≡ false → trim_left (c ∷ s) ≡ c ∷ s
unfolding trim_left
trim_left-cons c s f = rw f refl

ne_empty : (c : Char) (s : String) → ((c ∷ s) == "") ≡ false
ne_empty c s = ==_ne (c ∷ s) "" (λ e. cc e)

-- The line of a setting is already trimmed.
trim_space-setting_line :
    (k v : String) → IsName k → IsPlain v → trim_space (setting_line (k, v)) ≡ setting_line (k, v)
unfolding trim_space
trim_space-setting_line [] v n p = absurd (false≢true n)
trim_space-setting_line (c ∷ k) v n p =
    let w = "=" ∷ v in
    let t = trim_right-cons "=" v refl (trim_right_of_trimmed v p.trimmed) in
    ap trim_space (append.cons c k w)
    ∙ ap trim_right (trim_left-cons c (k ++ w) n.0)
    ∙ ap trim_right (sym (append.cons c k w))
    ∙ trim_right-append (c ∷ k) w (λ e. cc (t, e))
    ∙ ap (λ (s : String). (c ∷ k) ++ s) t

-- A line that is neither empty nor a comment is cut.
load_trimmed-cons :
    (c : Char) (s : String) (env : GoMap String)
    → eqb b'#' (code c) ≡ false
    → load_trimmed (c ∷ s) env ≡ load_setting (cut "=" (c ∷ s)) env
unfolding load_trimmed has_prefix
load_trimmed-cons c s env f = rw (ne_empty c s, f) refl

load_setting-plain :
    (k v : String) (env : GoMap String)
    → k ≢ ""
    → trim_space k ≡ k
    → has_nul k ≡ false
    → IsPlain v
    → load_setting (some (k, v)) env ≡ (if getenv k env == "" then put k v env else env)
unfolding load_setting set_default setenv
load_setting-plain k v env n t z p =
    rw (p.trimmed) (rw (p.unquoted) (rw t (rw (z, p.no_nul, ==_ne k "" n) refl)))

-- Loading the line sets the variable, if it is unset.
pub load_trimmed-setting_line :
    (k v : String) (env : GoMap String)
    → IsName k
    → IsPlain v
    → load_trimmed (trim_space (setting_line (k, v))) env
      ≡ (if getenv k env == "" then put k v env else env)
load_trimmed-setting_line [] v env n p = absurd (false≢true n)
load_trimmed-setting_line (c ∷ k) v env n p =
    let w = "=" ∷ v in
    ap (λ (s : String). load_trimmed s env)
      (trim_space-setting_line (c ∷ k) v n p ∙ append.cons c k w)
    ∙ load_trimmed-cons c (k ++ w) env n.1
    ∙ ap (λ (s : String). load_setting (cut "=" s) env) (sym (append.cons c k w))
    ∙ ap (λ (r : Option (String × String)). load_setting r env) (cut-append "=" (c ∷ k) v n.3)
    ∙ load_setting-plain (c ∷ k) v env (λ e. cc e) n.2 n.5 p

-- A test of names that is run.
unfoldable pub is_name : String → Bool
unfolding trim_space has_nul has_char
is_name [] = false
is_name (c ∷ k) =
    not (is_space (code c))
    && not (eqb b'#' (code c))
    && trim_space (c ∷ k) == (c ∷ k)
    && not (has_char "=" (c ∷ k))
    && not (has_char "\n" (c ∷ k))
    && not (has_nul (c ∷ k))

six_tests :
    (a b c d e f : Bool)
    → (not a && not b && c && not d && not e && not f) ≡ true
    → (a ≡ false) × (b ≡ false) × (c ≡ true) × (d ≡ false) × (e ≡ false) × (f ≡ false)
six_tests a b c d e f h = ground arith

pub is_name-IsName : (k : String) → is_name k ≡ true → IsName k
unfolding is_name
is_name-IsName [] h = h
is_name-IsName (c ∷ k) h =
    let t = trim_space (c ∷ k) in
    let all =
      six_tests (is_space (code c)) (eqb b'#' (code c)) (t == (c ∷ k)) (has_char "=" (c ∷ k))
        (has_char "\n" (c ∷ k)) (has_nul (c ∷ k)) h in
    (
      all.0,
      all.1,
      (eq_iff t (c ∷ k)).0 all.2,
      Free-has_char "=" (c ∷ k) all.3,
      Free-has_char "\n" (c ∷ k) all.4,
      all.5,
    )

pub IsName-Free : (k : String) → IsName k → Free "\n" k
IsName-Free [] n = tt
IsName-Free (c ∷ k) n = n.4
