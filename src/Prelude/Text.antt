-- ===== src/Prelude/Text.antt =====
-- The functions of Go's `strings`, `slices` and `path` that the source calls, over the code points
-- of a text.

use Prim.Native.Char.{Char, code}
use Prim.Native.String.{String, [], ◌∷◌, ◌++◌, len}
use Prim.Native.String.len
use Prim.Native.Nat.{◌≤◌}
use native.Mathlib.Omega.{arith}
use mathlib.Core.Bool.{Bool, true, false, ◌&&◌, ◌||◌}
use mathlib.Core.List.{List, [], ◌∷◌}
use text.Mathlib.Text.{◌==◌}
use karkive.Prelude.Tests.{leb, eqb, if◌then◌else◌}

-- unicode.IsSpace
is_space : Char → Bool
is_space ch =
    let c = code ch in
    (leb 9 c && leb c 13)
    || eqb c 0x20
    || eqb c 0x85
    || eqb c 0xA0
    || eqb c 0x1680
    || (leb 0x2000 c && leb c 0x200a)
    || eqb c 0x2028
    || eqb c 0x2029
    || eqb c 0x202f
    || eqb c 0x205f
    || eqb c 0x3000

pub trim_left : (Char → Bool) → String → String
trim_left p [] = []
trim_left p (c ∷ s) = let rest = trim_left p s in if p c then rest else c ∷ s

-- A character is dropped if all that follows it is.
pub trim_right : (Char → Bool) → String → String
trim_right p [] = []
trim_right p (c ∷ s) = let rest = trim_right p s in if p c && rest == "" then [] else c ∷ rest

len_if_empty : (b : Bool) (s t : String) → len s ≤ len t → len (if b then [] else s) ≤ len t
len_if_empty true s t h = ground arith
len_if_empty false s t h = h

pub len-trim_right : (p : Char → Bool) (s : String) → len (trim_right p s) ≤ len s
unfolding trim_right
len-trim_right p [] = ground arith
len-trim_right p (c ∷ s) =
    len_if_empty _ (c ∷ trim_right p s) (c ∷ s)
      (rw (len.cons c s, len.cons c (trim_right p s)) omega (arith, len-trim_right p s))

-- strings.TrimSpace
unfoldable pub trim_space : String → String
unfolding trim_left trim_right is_space
trim_space s = trim_right is_space (trim_left is_space s)

-- strings.ContainsAny(s, "\n\r")
unfoldable pub has_newline : String → Bool
has_newline [] = false
has_newline (c ∷ s) = eqb (code c) 10 || eqb (code c) 13 || has_newline s

unfoldable pub push_head : Char → List String → List String
push_head c [] = (c ∷ []) ∷ []
push_head c (w ∷ ws) = (c ∷ w) ∷ ws

-- strings.Split(s, "/")
unfoldable pub split_slash : String → List String
unfolding push_head
split_slash [] = "" ∷ []
split_slash (c ∷ s) =
    let rest = split_slash s in if eqb (code c) b'/' then "" ∷ rest else push_head c rest

-- slices.Contains
unfoldable pub contains : List String → String → Bool
contains [] x = false
contains (y ∷ ys) x = y == x || contains ys x

-- strings.Join
unfoldable pub join : String → List String → String
join sep [] = ""
join sep (x ∷ []) = x
join sep (x ∷ y ∷ ys) = x ++ sep ++ join sep (y ∷ ys)

-- strings.HasSuffix(s, "\n")
unfoldable pub ends_in_newline : String → Bool
ends_in_newline [] = false
ends_in_newline (c ∷ s) = let rest = ends_in_newline s in if s == "" then eqb (code c) 10 else rest
