-- ===== src/Prelude/Paths.antt =====
-- path.Clean of Go's package `path`: the shortest path that names the same file, by its elements.
pub mod Plain
use Prim.Native.String.{String, ◌++◌}
use mathlib.Core.Bool.{Bool, ◌||◌}
use mathlib.Core.List.{List, [], ◌∷◌, reverse}
use text.Mathlib.Text.{◌==◌, starts_with}
use karkive.Prelude.Tests.{if◌then◌else◌}
use karkive.Prelude.Text.{split_slash, join}

-- One element; the elements so far have the last one at the head. A ".." that has nothing to
-- remove is kept, unless the path is rooted.
unfoldable pub clean_part : Bool → List String → String → List String
clean_part rooted [] part =
    if part == "" || part == "."
    then []
    else if part == ".."
    then (if rooted then [] else ".." ∷ [])
    else part ∷ []
clean_part rooted (top ∷ stack) part =
    if part == "" || part == "."
    then top ∷ stack
    else if part == ".."
    then (if top == ".." then ".." ∷ top ∷ stack else stack)
    else part ∷ top ∷ stack

unfoldable pub clean_parts : Bool → List String → List String → List String
unfolding clean_part
clean_parts rooted stack [] = stack
clean_parts rooted stack (part ∷ parts) = clean_parts rooted (clean_part rooted stack part) parts

unfoldable pub clean : String → String
unfolding clean_parts split_slash join
clean p =
    let rooted = starts_with p "/" in
    let body = join "/" (reverse (clean_parts rooted [] (split_slash p))) in
    if rooted then "/" ++ body else if body == "" then "." else body
