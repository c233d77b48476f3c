-- ===== src/Go/Text.antt =====
-- What the program uses of Go's packages strings and path.
use Prim.Native.Char.{Char, code}
use Prim.Native.String.{len, slice, ◌++◌}
use Prim.Native.String.append
use text.Mathlib.Text.{starts_with}
use text.Mathlib.TextPositions.{starts_with-append, slice-append_right, len-append}
use azure_event_hubs_go.Base.{
  ◌≡◌, ap, String, Bool, true, false, List, [], ◌∷◌, num_eq, ◌==◌, ◌||◌, if◌then◌else◌, arith,
}

-- strings.TrimPrefix
unfoldable pub trim_prefix : String → String → String
trim_prefix s prefix = if starts_with s prefix then slice s (len prefix) (len s) else s

-- strings.Replace(s, old, new, 1), where old is not empty
unfoldable pub replace_once : String → String → String → String
replace_once String.[] old new = ""
replace_once (String.◌∷◌ c s) old new =
    let rest = replace_once s old new in
    if starts_with (String.◌∷◌ c s) old
    then new ++ slice (String.◌∷◌ c s) (len old) (len (String.◌∷◌ c s))
    else String.◌∷◌ c rest

-- The parts of a path between its slashes.
abbrev pub prepend : Char → List String → List String
prepend c [] = String.◌∷◌ c "" ∷ []
prepend c (x ∷ xs) = String.◌∷◌ c x ∷ xs

unfoldable pub split : String → List String
split String.[] = "" ∷ []
split (String.◌∷◌ c s) =
    let rest = split s in if num_eq (code c) b'/' then "" ∷ rest else prepend c rest

-- What ".." does to the parts before it, which stand in reverse order.
unfoldable pub go_up : Bool → List String → List String
go_up true [] = []
go_up false [] = ".." ∷ []
go_up rooted (p ∷ ps) = if p == ".." then ".." ∷ p ∷ ps else ps

unfoldable pub clean_parts : Bool → List String → List String → List String
unfolding go_up
clean_parts rooted before [] = before
clean_parts rooted before (p ∷ ps) =
    clean_parts rooted
      (if p == "" || p == "."
        then before
        else if p == ".."
        then go_up rooted before
        else p ∷ before)
      ps

-- The parts in their order, with slashes between them.
unfoldable pub join_parts : String → List String → String
join_parts after [] = after
join_parts after (p ∷ ps) = join_parts (if after == "" then p else p ++ "/" ++ after) ps

-- path.Clean
unfoldable pub clean : String → String
unfolding clean_parts join_parts split
clean path =
    let rooted = starts_with path "/" in
    let cleaned = join_parts "" (clean_parts rooted [] (split path)) in
    if rooted then "/" ++ cleaned else if cleaned == "" then "." else cleaned

-- path.Join of two elements
unfoldable pub join : String → String → String
unfolding clean
join a b =
    if a == ""
    then (if b == "" then "" else clean b)
    else if b == ""
    then clean a
    else clean (a ++ "/" ++ b)

pub replace_once-prefix :
    (c : Char) (old new rest : String)
    → replace_once ((String.◌∷◌ c old) ++ rest) (String.◌∷◌ c old) new ≡ new ++ rest
unfolding replace_once
replace_once-prefix c old new rest =
    let t = String.◌∷◌ c old in
    let whole = append.cons c old rest in
    ground (
      arith,
      whole,
      starts_with-append t rest,
      ap (λ s. slice s (len t) (len s)) whole,
      ap (λ s. starts_with s t) whole,
      slice-append_right t rest,
      len-append t rest,
      ap (λ k. slice (t ++ rest) (len t) k) (len-append t rest),
    )
