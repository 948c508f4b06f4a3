-- ===== src/Net.antt =====
-- What the server uses of Go's `net`: `net.SplitHostPort`, of which it keeps the host.
pub mod Ip
pub mod Dotted
use Prim.Native.Char.{Char, code}
use Prim.Native.String.{[], ◌∷◌}
use p2pt_server.GoText.{has_char}
use p2pt_server.Prelude.{String, ◌||◌, Option, none, some, eqb, get_or, if◌then◌else◌}

abbrev prefixed : Char → Option (String × String) → Option (String × String)
prefixed c none = none
prefixed c (some (a, b)) = some (c ∷ a, b)

-- The text before and behind the first `c`.
cut_first : Char → String → Option (String × String)
cut_first c [] = none
cut_first c (d ∷ s) =
    let rest = cut_first c s in if eqb (code d) (code c) then some ([], s) else prefixed d rest

-- The text before and behind the last `c`.
cut_last : Char → String → Option (String × String)
cut_last c [] = none
cut_last c (d ∷ s) = elim (cut_last c s) [
  | some (a, b) ↦ some (d ∷ a, b)
  | none ↦ if eqb (code d) (code c) then some ([], s) else none
]

-- What follows the closing bracket must be a colon and a port.
bracketed : String → Option (String × String) → Option String
bracketed inside none = none
bracketed inside (some (host, [])) = none
bracketed inside (some (host, c ∷ port)) =
    if eqb (code c) b':'
    then (if has_char ":" port || has_char "[" inside || has_char "]" port then none else some host)
    else none

plain : String → Option (String × String) → Option String
plain s none = none
plain s (some (host, port)) =
    if has_char ":" host || has_char "[" s || has_char "]" s then none else some host

-- net.SplitHostPort: the host, or `none` for an error
unfoldable pub split_host_port : String → Option String
unfolding cut_first cut_last bracketed plain
split_host_port [] = none
split_host_port (c ∷ s) =
    if eqb (code c) b'['
    then bracketed s (cut_first "]" s)
    else plain (c ∷ s) (cut_last ":" (c ∷ s))

-- The host of an address, or the whole text if it has no port (`extractIP` of turn_monitor.go).
unfoldable pub extract_ip : String → String
unfolding split_host_port
extract_ip addr = get_or addr (split_host_port addr)
