-- ===== src/Listener/SystemStats/Devices.antt =====
-- The device names that /proc/diskstats counts twice, or that stand for no disk: the regular
-- expression and the prefixes of packages/log-sump-listener/src/log_sump_listener/system_stats.py.
use log_sump.Base.{
  ℕ, Bool, true, false, ◌&&◌, ◌||◌, Option, none, some, [], ◌∷◌, if◌then◌else◌, leb, nat_eq,
}
use log_sump.Base.Text.{Text, codes, truthy, starts_with}

-- The longest front of a text that holds nothing but such characters, and what follows it.
unfoldable pub span : (ℕ → Bool) → Text → Text × Text
span p [] = ([], [])
span p (c ∷ s) = let (front, rest) = span p s in if p c then (c ∷ front, rest) else ([], c ∷ s)

-- What follows a prefix.
unfoldable pub drop_prefix : Text → Text → Option Text
drop_prefix [] s = some s
drop_prefix (p ∷ prefix) [] = none
drop_prefix (p ∷ prefix) (c ∷ s) = if nat_eq c p then drop_prefix prefix s else none

-- [a-z]
abbrev pub is_lower : ℕ → Bool
is_lower c = leb b'a' c && leb c b'z'

module _ (is_digit : ℕ → Bool) where
  abbrev all_digits : Text → Bool
  all_digits [] = true
  all_digits (c ∷ s) = is_digit c && all_digits s

  -- \d+$
  abbrev digits_end : Text → Bool
  digits_end s = truthy s && all_digits s

  -- [a-z]+\d+$: no digit is a lower-case letter, so that there is no other way to match.
  abbrev letters_digits : Option Text → Bool
  letters_digits none = false
  letters_digits (some s) =
      let (letters, digits) = span is_lower s in truthy letters && digits_end digits

  -- \d+, and then the character c.
  abbrev digits_then : ℕ → Text → Option Text
  digits_then c s =
      let (digits, rest) = span is_digit s in
      if truthy digits then drop_prefix (c ∷ []) rest else none

  -- \d+n\d+p\d+$
  abbrev namespace_partition : Option Text → Bool
  namespace_partition none = false
  namespace_partition (some s) = elim (digits_then b'n' s) [
    | none ↦ false
    | some rest ↦ elim (digits_then b'p' rest) [ none ↦ false | some end ↦ digits_end end ]
  ]

  -- _PARTITION_RE.match(name), for a name without a newline.
  unfoldable pub is_partition : Text → Bool
  is_partition name =
      letters_digits (drop_prefix (codes "sd") name)
      || letters_digits (drop_prefix (codes "hd") name)
      || letters_digits (drop_prefix (codes "vd") name)
      || letters_digits (drop_prefix (codes "xvd") name)
      || namespace_partition (drop_prefix (codes "nvme") name)

-- name.startswith(_VIRTUAL_DEVICE_PREFIXES)
unfoldable pub is_virtual_device : Text → Bool
is_virtual_device name =
    starts_with name (codes "loop")
    || starts_with name (codes "ram")
    || starts_with name (codes "dm-")
