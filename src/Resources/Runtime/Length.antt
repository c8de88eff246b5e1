-- ===== src/Resources/Runtime/Length.antt =====
-- The length of VolumeHolderName's result: internal/resources/runtime.go.
use Prim.Native.String.{String, [], ◌∷◌, len, slice, fits}
use Prim.Native.String.len
use Prim.Native.String.slice
use Prim.Native.Char.{Char, len_utf8}
use text.Mathlib.TextPositions.{len-append}
use Prim.Native.Nat.{Ordering, compare}
use karkive.Prelude.{ℕ, ◌-◌, ◌≡◌, refl, ◌≤◌, arith, trim_right, len-trim_right}
use karkive.Resources.Runtime.{
  volume_holder_name, volume_holder_name_suffix, dns1035_label_max, is_dash,
}

len-fits :
    (c : Char) (rest : String) (b : ℕ) (o : Ordering)
    → compare (len_utf8 c) b ≡ o
    → len rest ≤ b - len_utf8 c
    → len (fits o c rest) ≤ b
len-fits c rest b Ordering.lt e h = rw (len.cons c rest) ground (arith, e, h)
len-fits c rest b Ordering.eq e h = rw (len.cons c rest) ground (arith, e, h)
len-fits c rest b Ordering.gt e h = ground arith

len-slice : (s : String) (b : ℕ) → len (slice s 0 b) ≤ b
len-slice [] b = rw (slice.nil 0 b) ground arith
len-slice (c ∷ s) b =
    let w = len_utf8 c in
    rw (slice.cons-zero c s b)
      (len-fits c (slice s 0 (b - w)) b (compare w b) refl (len-slice s (b - w)))

-- The name of the volume holder fits a DNS label (63 bytes), however long the owned name is.
pub volume_holder_name-fits : (owned : String) → len (volume_holder_name owned) ≤ dns1035_label_max
unfolding volume_holder_name
volume_holder_name-fits owned =
    let keep = dns1035_label_max - len volume_holder_name_suffix in
    ground (
      arith,
      len-append owned volume_holder_name_suffix,
      len-append (trim_right is_dash (slice owned 0 keep)) volume_holder_name_suffix,
      len-trim_right is_dash (slice owned 0 keep),
      len-slice owned keep,
    )
