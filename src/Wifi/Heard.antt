-- ===== src/Wifi/Heard.antt =====
-- Which networks a scan lists.
use p2pt_server.GoMap.{GoMap, get, put, has, IsUnique, Visits}
use p2pt_server.GoMap.Laws.{get-put, put-IsUnique}
use p2pt_server.GoText.{ℤ, trim_space}
use p2pt_server.Prelude.{
  String, Bool, true, false, false≢true, not, ◌&&◌, ◌||◌, Option, none, some, List, [], ◌∷◌, ◌≡◌,
  ◌≢◌, refl, sym, ◌∙◌, ap, subst, arith, ◌==◌, eq_iff, is_empty, if◌then◌else◌, Bool-cases, inl,
  inr, if_cases,
}
use p2pt_server.Wifi.{
  Report, add_network, add_all, heard_by, next_tool, parse_iw_scan_output, parse_iwlist_scan_output,
  parse_wpa_cli_scan_output, scan_wi_fi_networks,
}

-- The first signal that is reported for a name.
abbrev pub first_heard : String → List Report → Option ℤ
first_heard k [] = none
first_heard k ((ssid, signal) ∷ rs) = if trim_space ssid == k then some signal else first_heard k rs

abbrev pub or_heard : Option ℤ → Option ℤ → Option ℤ
or_heard none o = o
or_heard (some v) o = some v

-- Some report has a name.
abbrev pub names_any : List Report → Bool
names_any [] = false
names_any ((ssid, signal) ∷ rs) = not (trim_space ssid == "") || names_any rs

-- The reports of the first tool that names a network, or of the last tool.
abbrev pub chosen : List Report → List Report → List Report → List Report
chosen iw iwlist wpa_cli = if names_any iw then iw else if names_any iwlist then iwlist else wpa_cli

-- What a name adds.
abbrev admit : String → ℤ → GoMap ℤ → GoMap ℤ
admit name signal m = if name == "" || has name m then m else put name signal m

get-admit :
    (k name : String) (signal : ℤ) (m : GoMap ℤ)
    → k ≢ ""
    → get k (admit name signal m) ≡ or_heard (get k m) (if name == k then some signal else none)
get-admit k name signal m n = ground (arith, eq_iff name k, eq_iff name "", get-put k name signal m)

admit_nameless :
    (name : String) (signal : ℤ) (m : GoMap ℤ)
    → get "" m ≡ none
    → get "" (admit name signal m) ≡ none
admit_nameless name signal m h = ground (arith, eq_iff name "", get-put "" name signal m)

admit-IsUnique :
    (name : String) (signal : ℤ) (m : GoMap ℤ) → IsUnique m → IsUnique (admit name signal m)
admit-IsUnique name signal m u =
    if_cases (λ (x : GoMap ℤ). IsUnique x) (name == "" || has name m) (λ e. u)
      (λ e. put-IsUnique name signal m u)

is_empty-put : (k : String) (v : ℤ) (m : GoMap ℤ) → is_empty (put k v m) ≡ false
unfolding put
is_empty-put k v [] = refl
is_empty-put k v ((j, w) ∷ m) = ground arith

is_empty-admit :
    (name : String) (signal : ℤ) (m : GoMap ℤ)
    → is_empty (admit name signal m) ≡ (is_empty m && (name == ""))
unfolding get
is_empty-admit name signal [] = ground (arith, is_empty-put name signal [])
is_empty-admit name signal (x ∷ m) = ground (arith, is_empty-put name signal (x ∷ m))

or_heard-or_heard :
    (o : Option ℤ) (b : Bool) (signal : ℤ) (later : Option ℤ)
    → or_heard (or_heard o (if b then some signal else none)) later
      ≡ or_heard o (if b then some signal else later)
or_heard-or_heard none true signal later = refl
or_heard-or_heard none false signal later = refl
or_heard-or_heard (some v) b signal later = refl

or_heard-none : (o : Option ℤ) → o ≡ or_heard o none
or_heard-none none = refl
or_heard-none (some v) = refl

get-add_all :
    (k : String) (rs : List Report) (m : GoMap ℤ)
    → k ≢ ""
    → get k (add_all rs m) ≡ or_heard (get k m) (first_heard k rs)
unfolding add_all add_network
get-add_all k [] m n = or_heard-none (get k m)
get-add_all k ((ssid, signal) ∷ rs) m n =
    let name = trim_space ssid in
    get-add_all k rs (admit name signal m) n
    ∙ ap (λ (o : Option ℤ). or_heard o (first_heard k rs)) (get-admit k name signal m n)
    ∙ or_heard-or_heard (get k m) (name == k) signal (first_heard k rs)

add_all-IsUnique : (rs : List Report) (m : GoMap ℤ) → IsUnique m → IsUnique (add_all rs m)
unfolding add_all add_network
add_all-IsUnique [] m u = u
add_all-IsUnique ((ssid, signal) ∷ rs) m u =
    add_all-IsUnique rs (admit (trim_space ssid) signal m)
      (admit-IsUnique (trim_space ssid) signal m u)

add_all_nameless : (rs : List Report) (m : GoMap ℤ) → get "" m ≡ none → get "" (add_all rs m) ≡ none
unfolding add_all add_network
add_all_nameless [] m h = h
add_all_nameless ((ssid, signal) ∷ rs) m h =
    add_all_nameless rs (admit (trim_space ssid) signal m)
      (admit_nameless (trim_space ssid) signal m h)

is_empty-add_all :
    (rs : List Report) (m : GoMap ℤ) → is_empty (add_all rs m) ≡ (is_empty m && not (names_any rs))
unfolding add_all add_network
is_empty-add_all [] m = ground arith
is_empty-add_all ((ssid, signal) ∷ rs) m =
    let name = trim_space ssid in
    is_empty-add_all rs (admit name signal m)
    ∙ ap (λ (b : Bool). b && not (names_any rs)) (is_empty-admit name signal m)
    ∙ ground arith

-- The next tool is asked if the list is empty.
next_tool-if :
    (rs : List Report) (m : GoMap ℤ) → next_tool rs m ≡ (if is_empty m then add_all rs [] else m)
next_tool-if rs [] = refl
next_tool-if rs (x ∷ m) = refl

pick_tool :
    (iw iwlist wpa_cli : List Report) (a b : Bool)
    → is_empty (add_all iw []) ≡ not a
    → is_empty (add_all iwlist []) ≡ not b
    → next_tool wpa_cli (next_tool iwlist (add_all iw []))
      ≡ add_all (if a then iw else if b then iwlist else wpa_cli) []
pick_tool iw iwlist wpa_cli true b e f =
    ap (next_tool wpa_cli) (next_tool-if iwlist (add_all iw []) ∙ rw e refl)
    ∙ next_tool-if wpa_cli (add_all iw [])
    ∙ rw e refl
pick_tool iw iwlist wpa_cli false true e f =
    ap (next_tool wpa_cli) (next_tool-if iwlist (add_all iw []) ∙ rw e refl)
    ∙ next_tool-if wpa_cli (add_all iwlist [])
    ∙ rw f refl
pick_tool iw iwlist wpa_cli false false e f =
    ap (next_tool wpa_cli) (next_tool-if iwlist (add_all iw []) ∙ rw e refl)
    ∙ next_tool-if wpa_cli (add_all iwlist [])
    ∙ rw f refl

-- The list before it is sorted.
chosen_lem :
    (iw iwlist wpa_cli : List Report)
    → next_tool wpa_cli (next_tool iwlist (add_all iw [])) ≡ add_all (chosen iw iwlist wpa_cli) []
chosen_lem iw iwlist wpa_cli =
    pick_tool iw iwlist wpa_cli (names_any iw) (names_any iwlist) (is_empty-add_all iw [])
      (is_empty-add_all iwlist [])

get-add_all_new :
    (k : String) (rs : List Report)
    → get k (add_all rs []) ≡ (if k == "" then none else first_heard k rs)
unfolding get
get-add_all_new k rs = elim (Bool-cases (k == "")) [
  | inl e ↦
      let q = (eq_iff k "").0 e in
      rw e (ap (λ (x : String). get x (add_all rs [])) q ∙ add_all_nameless rs [] refl)
  | inr e ↦ rw e (get-add_all k rs [] (λ q. false≢true (sym e ∙ (eq_iff k "").1 q)))
]

-- If sort.Slice keeps the entries, each once, then a scan lists the names that are reported by
-- the first of the tools iw, iwlist and wpa_cli that names a network, or by the last: no name
-- twice, no empty name, and each with the signal that was reported for it first.
pub scan_wi_fi_networks_lem :
    (parse_float : String → Option ℤ) (sort : GoMap ℤ → GoMap ℤ) (iw iwlist wpa_cli : Option String)
    (k : String)
    → ((m : GoMap ℤ) → IsUnique m → Visits (sort m) m)
    → let networks = scan_wi_fi_networks parse_float sort iw iwlist wpa_cli in
      let reports =
        chosen
          (heard_by (parse_iw_scan_output parse_float) iw)
          (heard_by parse_iwlist_scan_output iwlist)
          (heard_by parse_wpa_cli_scan_output wpa_cli) in
      IsUnique networks × (get k networks ≡ (if k == "" then none else first_heard k reports))
unfolding scan_wi_fi_networks
scan_wi_fi_networks_lem parse_float sort iw iwlist wpa_cli k keeps =
    let a = heard_by (parse_iw_scan_output parse_float) iw in
    let b = heard_by parse_iwlist_scan_output iwlist in
    let c = heard_by parse_wpa_cli_scan_output wpa_cli in
    let before = next_tool c (next_tool b (add_all a [])) in
    let same = chosen_lem a b c in
    let kept =
      keeps before
        (subst (λ (m : GoMap ℤ). IsUnique m) (sym same) (add_all-IsUnique (chosen a b c) [] tt)) in
    (kept.once, kept.same k ∙ ap (λ (m : GoMap ℤ). get k m) same ∙ get-add_all_new k (chosen a b c))
