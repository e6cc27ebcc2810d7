-- ===== src/Common/Strings.antt =====
-- The string functions of the standard library that the program calls, over lists of code points.
use mathlib.Core.Path.{◌≡◌, refl, ap, ◌∙◌}
use mathlib.Core.Logic.{◌↔◌, ◌≢◌}
use mathlib.Core.Bool.{Bool, true, false, ◌||◌, ◌&&◌}
use mathlib.Core.Option.{Option, none, some}
use mathlib.Core.List.{[], ◌∷◌, ◌++◌}
use Prim.Native.Nat.{ℕ}
use native.Mathlib.Omega.{arith}
use puff.Common.Tests.{nat_beq, leb, if◌then◌else◌}
use puff.Common.Lists.{length, length-append}
use puff.Common.Equality.{Text, contains, nat_eq, ◌==◌, text_eq, text_beq, text_beq_iff}

-- `s.starts_with(prefix)`, the prefix first.
unfoldable pub starts_with : Text → Text → Bool
starts_with [] s = true
starts_with (p ∷ ps) [] = false
starts_with (p ∷ ps) (c ∷ s) = nat_beq p c && starts_with ps s

-- `s.contains(part)`, the part first.
unfoldable pub has_part : Text → Text → Bool
unfolding starts_with
has_part part [] = starts_with part []
has_part part (c ∷ s) = starts_with part (c ∷ s) || has_part part s

push_front : ℕ → Option Text → Option Text
push_front c none = none
push_front c (some s) = some (c ∷ s)

-- `s.strip_suffix(suffix)`, the suffix first.
unfoldable pub strip_suffix : Text → Text → Option Text
unfolding push_front text_beq
strip_suffix suffix [] = if suffix == [] then some [] else none
strip_suffix suffix (c ∷ s) =
    if suffix == (c ∷ s) then some [] else push_front c (strip_suffix suffix s)

pub starts_with_iff : (p s : Text) → (starts_with p s ≡ true) ↔ ((rest : Text) × (s ≡ p ++ rest))
unfolding starts_with
starts_with_iff [] s = (λ h. (s, refl), λ h. refl)
starts_with_iff (p ∷ ps) [] = (λ h. cc, λ (rest, e). cc)
starts_with_iff (p ∷ ps) (c ∷ s) = (
  λ h. let (rest, e) = (starts_with_iff ps s).0 (ground arith) in (rest, ground arith),
  λ (rest, e). ground (arith, (starts_with_iff ps s).1 (rest, ground arith)),
)

strip_suffix_sound : (suffix s p : Text) → strip_suffix suffix s ≡ some p → s ≡ p ++ suffix
unfolding strip_suffix push_front
strip_suffix_sound suffix [] p h = ground (arith, text_beq_iff suffix [])
strip_suffix_sound suffix (c ∷ s) [] h = ground (arith, text_beq_iff suffix (c ∷ s))
strip_suffix_sound suffix (c ∷ s) (d ∷ p) h = ground (arith, strip_suffix_sound suffix s p)

strip_suffix-append : (suffix p : Text) → strip_suffix suffix (p ++ suffix) ≡ some p
unfolding strip_suffix push_front
strip_suffix-append [] [] = refl
strip_suffix-append (c ∷ s) [] = ground (arith, text_beq_iff (c ∷ s) (c ∷ s))
strip_suffix-append suffix (d ∷ p) =
    ground (arith, strip_suffix-append suffix p, text_beq_iff suffix (d ∷ (p ++ suffix)), longer)
  where
    longer : suffix ≢ d ∷ (p ++ suffix)
    longer e = omega (arith, ap length e, length-append p suffix)

pub strip_suffix_iff : (suffix s p : Text) → (strip_suffix suffix s ≡ some p) ↔ (s ≡ p ++ suffix)
strip_suffix_iff suffix s p =
    (strip_suffix_sound suffix s p, λ e. ap (strip_suffix suffix) e ∙ strip_suffix-append suffix p)

-- `char::is_whitespace`
unfoldable pub is_whitespace : ℕ → Bool
is_whitespace c =
    (leb 9 c && leb c 13)
    || (leb 8192 c && leb c 8202)
    || contains (32 ∷ 133 ∷ 160 ∷ 5760 ∷ 8232 ∷ 8233 ∷ 8239 ∷ 8287 ∷ 12288 ∷ []) c

-- `s.trim_start()`
unfoldable pub trim_start : Text → Text
unfolding is_whitespace
trim_start [] = []
trim_start (c ∷ s) = let rest = trim_start s in if is_whitespace c then rest else c ∷ s
