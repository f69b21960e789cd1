-- ===== src/Routes.antt =====
-- pkg/routes/routes.go: path-prefix rules, their parsing and validation, the longest match, and the
-- comparison of two tables. A port is a Go int, so it may be negative before it is validated.
pub mod Comparison
pub mod Matching
pub mod Prefixes
use mathlib.Core.Option
use sealtun.Prelude.{
  ℕ, ◌-◌, ◌+◌, suc, Bool, true, false, not, ◌&&◌, ◌||◌, List, [], ◌∷◌, ◌++◌, map, reverse, Option,
  none, some, ℤ, pos, negsuc, Bytes, codes, str_eq, Result, ok, err, ◌>>=◌, ◌>>◌, guard, or_err,
  leb, ltb, ◌==◌, if◌then◌else◌, any, length,
}
use sealtun.Text.{cut_prefix, has_prefix, trim_prefix, has_suffix, contains, contains_any, cut}
use sealtun.Text.Decimal.{itoa, atoi}
use sealtun.Text.Trim.{trim_space}

pub record Route : Type 0 where
  pub path : Bytes
  pub port : ℤ

pub data Error : Type 0 where
  invalid_form port_not_number path_required no_leading_slash not_plain escaped_or_dots invalid_port
        duplicate_prefix :
      Error

abbrev pub slash : Bytes
slash = codes "/"

-- The loop that strips trailing slashes, over the reversed text.
strip_slashes : Bytes → Bytes
strip_slashes [] = []
strip_slashes (c ∷ []) = c ∷ []
strip_slashes (c ∷ d ∷ s) =
    let less = strip_slashes (d ∷ s) in if c == b'/' then less else c ∷ d ∷ s

rooted : Bytes → Bytes
rooted path = if has_prefix path slash then path else slash ++ path

unfoldable pub normalize_path : Bytes → Bytes
unfolding strip_slashes rooted
normalize_path raw =
    let path = trim_space raw in
    if str_eq path [] then [] else reverse (strip_slashes (reverse (rooted path)))

valid_port : ℤ → Bool
valid_port (pos port) = leb 1 port && leb port 65535
valid_port (negsuc port) = false

-- The checks that `Validate` makes of one route; the normalized prefix is handed on.
unfoldable pub check_route : Route → Result Error Bytes
unfolding valid_port
check_route route = do
  let raw = trim_space route.path
  guard (not (str_eq raw [])) path_required
  guard (has_prefix raw slash) no_leading_slash
  let normalized = normalize_path raw
  guard (not (contains_any normalized (codes "?# \t"))) not_plain
  guard (not (contains normalized (codes "%") || contains normalized (codes ".."))) escaped_or_dots
  guard (valid_port route.port) invalid_port
  ok normalized

-- The loop of `Validate`; `seen` holds the prefixes so far.
validate_from : List Bytes → List Route → Result Error (Unit {0})
validate_from seen [] = ok tt
validate_from seen (route ∷ routes) = do
  normalized ← check_route route
  guard (not (any (str_eq normalized) seen)) duplicate_prefix
  validate_from (normalized ∷ seen) routes

unfoldable pub validate : List Route → Result Error (Unit {0})
unfolding validate_from
validate routes = validate_from [] routes

-- One round of `Parse`: "path=port".
unfoldable pub parse_route : Bytes → Result Error Route
parse_route value = do
  (path, port_text) ← or_err (cut (trim_space value) b'=') invalid_form
  guard (not (str_eq (trim_space path) []) && not (str_eq (trim_space port_text) [])) invalid_form
  port ← or_err (atoi (trim_space port_text)) port_not_number
  ok (record { path = path; port = port })

parse_all : List Bytes → Result Error (List Route)
unfolding parse_route
parse_all [] = ok []
parse_all (value ∷ values) = do
  route ← parse_route value
  routes ← parse_all values
  ok (route ∷ routes)

unfoldable pub parse : List Bytes → Result Error (List Route)
unfolding parse_all validate
parse [] = ok []
parse (value ∷ values) = do parsed ← parse_all (value ∷ values); validate parsed; ok parsed

unfoldable pub prefix_matches : Bytes → Bytes → Bool
prefix_matches prefix request =
    if str_eq prefix slash
    then has_prefix request slash
    else str_eq request prefix || has_prefix request (prefix ++ slash)

-- `best` and `bestLen`; -1 and -1 are `none`.
pub record Best : Type 0 where
  pub route : Route
  pub len : ℕ

longer : ℕ → Option Best → Bool
longer len none = true
longer len (some best) = ltb best.len len

-- One round of the loop of `MatchRoute`.
consider : Bytes → Route → Option Best → Option Best
unfolding longer
consider request route best =
    let prefix = normalize_path route.path in
    if str_eq prefix []
    then best
    else if not (prefix_matches prefix request)
    then best
    else if longer (length prefix) best
    then some (record { route = route; len = length prefix })
    else best

match_from : Bytes → Option Best → List Route → Option Best
unfolding consider
match_from request best [] = best
match_from request best (route ∷ routes) = match_from request (consider request route best) routes

matched : Option Best → Option Route
matched none = none
matched (some best) =
    some (record { path = normalize_path best.route.path; port = best.route.port })

unfoldable pub match_route : List Route → Bytes → Option Route
unfolding match_from matched
match_route routes request = matched (match_from request none routes)

unfoldable pub match : List Route → Bytes → Option ℤ
unfolding match_route
match routes request = Option.map (λ r. r.port) (match_route routes request)

unfoldable pub strip_prefix : Bytes → Bytes → Bytes
strip_prefix raw request =
    let prefix = normalize_path raw in
    if str_eq prefix slash || str_eq prefix []
    then request
    else let rest = trim_prefix request prefix in if str_eq rest [] then slash else rest

-- `%d`
format_port : ℤ → Bytes
format_port (pos n) = itoa n
format_port (negsuc n) = b'-' ∷ itoa (suc n)

-- `%s=%d`
key : Route → Bytes
unfolding format_port
key route = normalize_path route.path ++ b'=' ∷ format_port route.port

-- A map from strings to counters; a missing key counts 0.
abbrev Counts : Type 0
Counts = Bytes → ℕ

update : Counts → Bytes → ℕ → Counts
update counts k n j = if str_eq j k then n else counts j

count_up : List Route → Counts → Counts
unfolding key update
count_up [] counts = counts
count_up (route ∷ routes) counts =
    count_up routes (update counts (key route) (counts (key route) + 1))

-- The second loop: a counter that would fall below 0 ends it.
spend : List Route → Counts → Bool
unfolding key update
spend [] counts = true
spend (route ∷ routes) counts =
    let rest = spend routes (update counts (key route) (counts (key route) - 1)) in
    if counts (key route) == 0 then false else rest

unfoldable pub equal : List Route → List Route → Bool
unfolding count_up spend
equal a b = if length a == length b then spend b (count_up a (λ _. 0)) else false

unfoldable pub has_root_route : List Route → Bool
has_root_route routes = any (λ r. str_eq (normalize_path r.path) slash) routes
