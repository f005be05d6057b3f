-- ===== src/Presence/Doubles.antt =====
-- Numbers as the bit patterns of doubles: finiteness, the order of finite numbers, and
-- `clampFiniteNumber` of src/utils/presence-schema.ts with the bounds that it is called with.
use anvilkit_plugin_collab_y.Base.{
  ℕ, ◌/◌, ◌%◌, ◌^◌, Bool, false, not, ◌||◌, Option, none, some, nat_eq, ◌==◌, if◌then◌else◌, ltb,
}

-- The exponent is not all ones.
unfoldable pub finite : ℕ → Bool
finite p = not ((p / 2 ^ 52) % 2048 == 2047)

abbrev pub magnitude : ℕ → ℕ
magnitude p = p % 2 ^ 63

abbrev pub negative : ℕ → Bool
negative p = p / 2 ^ 63 == 1

-- `a < b` for finite numbers: zero is less than no zero, whatever the signs.
unfoldable pub less : ℕ → ℕ → Bool
less a b =
    if negative a
    then if negative b
      then ltb (magnitude b) (magnitude a)
      else ltb 0 (magnitude a) || ltb 0 (magnitude b)
    else if negative b
    then false
    else ltb (magnitude a) (magnitude b)

abbrev pub zero_double : ℕ
zero_double = 0

-- 0.01, 256 and 2 ^ 53 - 1.
abbrev pub min_viewport_zoom : ℕ
min_viewport_zoom = 4576918229304087675

abbrev pub max_viewport_zoom : ℕ
max_viewport_zoom = 4643211215818981376

abbrev pub max_safe_integer : ℕ
max_safe_integer = 4845873199050653695

unfoldable pub clamp_finite_number : ℕ → ℕ → ℕ → Option ℕ
clamp_finite_number value low high =
    if finite value
    then some (if less value low then low else if less high value then high else value)
    else none
