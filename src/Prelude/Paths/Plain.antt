-- ===== src/Prelude/Paths/Plain.antt =====
-- path.Clean on a relative path without "..": its result has only elements that name something.
use Prim.Native.Char.{Char, code}
use Prim.Native.String.{String, [], ◌∷◌, ◌++◌}
use mathlib.Core.Path.{◌≡◌, refl}
use mathlib.Core.Logic.{◌≢◌, ◌⊎◌, inl, inr}
use mathlib.Core.Bool.{Bool, true, false, not, ◌&&◌, ◌||◌}
use mathlib.Core.List.{List, [], ◌∷◌, reverse_aux}
use native.Mathlib.Omega.{arith}
use text.Mathlib.Text.{◌==◌, starts_with}
use text.Mathlib.TextEquality.{eq_iff}
use text.Mathlib.TextLemmas.{cons-append, nil-append}
use karkive.Prelude.Tests.{eqb, All, Bool-cases, if◌then◌else◌}
use karkive.Prelude.Text.{split_slash, join, push_head}
use karkive.Prelude.Paths.{clean, clean_part, clean_parts}

abbrev no_slash : String → Bool
no_slash [] = true
no_slash (c ∷ s) = not (eqb (code c) b'/') && no_slash s

-- An element of a path that names something other than the directory itself or its parent.
abbrev pub IsPlainPart : String → Type 0
IsPlainPart part = (part ≢ "") × (part ≢ ".") × (part ≢ "..")

split_slash_one : (x : String) → no_slash x ≡ true → split_slash x ≡ x ∷ []
unfolding split_slash push_head
split_slash_one [] h = refl
split_slash_one (c ∷ s) h =
    let rest = split_slash_one s (ground (arith, h)) in
    let here : eqb (code c) b'/' ≡ false = ground (arith, h) in rw (here, rest) refl

split_slash_first :
    (x t : String) → no_slash x ≡ true → split_slash (x ++ ("/" ++ t)) ≡ x ∷ split_slash t
unfolding split_slash push_head
split_slash_first [] t h = rw (nil-append ("/" ++ t), cons-append "/" [] t, nil-append t) refl
split_slash_first (c ∷ s) t h =
    let rest = split_slash_first s t (ground (arith, h)) in
    let here : eqb (code c) b'/' ≡ false = ground (arith, h) in
    rw (cons-append c s ("/" ++ t), here, rest) refl

plain : (part : String) → part == "" || part == "." ≡ false → part ≢ ".." → IsPlainPart part
plain part keep up = (
  (λ e. ground (arith, eq_iff part "", keep, e)),
  (λ e. ground (arith, eq_iff part "", eq_iff part ".", keep, e)),
  up,
)

push_head-no_slash :
    (c : Char) (parts : List String)
    → eqb (code c) b'/' ≡ false
    → All (λ p. no_slash p ≡ true) parts
    → All (λ p. no_slash p ≡ true) (push_head c parts)
unfolding push_head
push_head-no_slash c [] here h = (ground (arith, here), tt)
push_head-no_slash c (p ∷ parts) here (q, h) = (ground (arith, here, q), h)

split_slash-no_slash : (s : String) → All (λ p. no_slash p ≡ true) (split_slash s)
unfolding split_slash
split_slash-no_slash [] = (refl, tt)
split_slash-no_slash (c ∷ s) =
    let rest = split_slash-no_slash s in
    elim (Bool-cases (eqb (code c) b'/')) [
      | inl here ↦ rw here (refl, rest)
      | inr other ↦ rw other (push_head-no_slash c (split_slash s) other rest)
    ]

-- A plain element as `split_slash` gives it.
abbrev IsPart : String → Type 0
IsPart part = IsPlainPart part × (no_slash part ≡ true)

clean_part_plain :
    (stack : List String) (part : String)
    → part ≢ ".."
    → no_slash part ≡ true
    → All IsPart stack
    → All IsPart (clean_part false stack part)
unfolding clean_part
clean_part_plain [] part up slash h = elim (Bool-cases (part == "" || part == ".")) [
  | inl skip ↦ rw skip tt
  | inr keep ↦ elim (Bool-cases (part == "..")) [
    | inl dots ↦ absurd (up (ground (arith, eq_iff part "..", dots)))
    | inr other ↦ rw (keep, other) ((plain part keep up, slash), tt)
  ]
]
clean_part_plain (top ∷ stack) part up slash h = elim (Bool-cases (part == "" || part == ".")) [
  | inl skip ↦ rw skip h
  | inr keep ↦ elim (Bool-cases (part == "..")) [
    | inl dots ↦ absurd (up (ground (arith, eq_iff part "..", dots)))
    | inr other ↦ rw (keep, other) ((plain part keep up, slash), h)
  ]
]

clean_parts_plain :
    (stack parts : List String)
    → All IsPart stack
    → All (λ p. p ≢ "..") parts
    → All (λ p. no_slash p ≡ true) parts
    → All IsPart (clean_parts false stack parts)
unfolding clean_parts
clean_parts_plain stack [] h up slash = h
clean_parts_plain stack (part ∷ parts) h (u, up) (n, slash) =
    clean_parts_plain (clean_part false stack part) parts (clean_part_plain stack part u n h) up
      slash

reverse_aux-All :
    (P : String → Type 0) (xs ys : List String) → All P xs → All P ys → All P (reverse_aux xs ys)
reverse_aux-All P [] ys h k = k
reverse_aux-All P (x ∷ xs) ys (p, h) k = reverse_aux-All P xs (x ∷ ys) h (p, k)

split_slash-join :
    (x : String) (xs : List String) → All IsPart (x ∷ xs) → split_slash (join "/" (x ∷ xs)) ≡ x ∷ xs
unfolding join
split_slash-join x [] ((_, n), _) = split_slash_one x n
split_slash-join x (y ∷ ys) ((_, n), h) =
    let rest = split_slash-join y ys h in rw (split_slash_first x (join "/" (y ∷ ys)) n, rest) refl

parts_plain : (parts : List String) → All IsPart parts → All IsPlainPart parts
parts_plain [] h = tt
parts_plain (x ∷ xs) ((p, _), h) = (p, parts_plain xs h)

body_plain :
    (parts : List String)
    → All IsPart parts
    → (let body = join "/" parts in
        let p = if body == "" then "." else body in (p ≡ ".") ⊎ All IsPlainPart (split_slash p))
unfolding join
body_plain [] h = inl refl
body_plain (x ∷ xs) h = elim (Bool-cases (join "/" (x ∷ xs) == "")) [
  | inl empty ↦ inl (rw empty refl)
  | inr some_part ↦ inr (rw (some_part, split_slash-join x xs h) (parts_plain (x ∷ xs) h))
]

-- Cleaned, a relative path without ".." is "." or has only plain elements.
pub clean-IsPlainPart :
    (p : String)
    → starts_with p "/" ≡ false
    → All (λ part. part ≢ "..") (split_slash p)
    → (clean p ≡ ".") ⊎ All IsPlainPart (split_slash (clean p))
unfolding clean
clean-IsPlainPart p relative up =
    let stack = clean_parts_plain [] (split_slash p) tt up (split_slash-no_slash p) in
    let parts = reverse_aux-All IsPart (clean_parts false [] (split_slash p)) [] stack tt in
    rw relative (body_plain _ parts)
