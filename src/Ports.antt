-- ===== src/Ports.antt =====
-- internal/ports/ports.go: port ranges, and the choice of a free port. What the operating system
-- knows (which ports it excludes, whether one can be listened on) is an argument.
pub mod Parsing
pub mod Picking
use multi_send.Base.{
  ℕ, zero, suc, Bool, true, false, ◌&&◌, ◌||◌, not, List, [], ◌∷◌, Option, none, some,
  if◌then◌else◌, Result, ok, err, ◌>>=◌,
}
use multi_send.Base.Int.{ℤ, pos, lt_ℤ, le_ℤ, add64}
use multi_send.Base.Text.{Text, trim_space}
use multi_send.Base.Atoi.{atoi, split_on}

pub record Range : Type 0 where
  pub start : ℤ
  pub end : ℤ

pub data RangeError : Type 0 where
  invalid_range invalid_number invalid_port_bounds no_available_port : RangeError

-- Range.Normalize
abbrev pub normalize : Range → Range
normalize r = if lt_ℤ r.end r.start then record { start = r.end; end = r.start } else r

-- Range.Contains
unfoldable pub contains : Range → ℤ → Bool
contains r port = let r = normalize r in le_ℤ r.start port && le_ℤ port r.end

abbrev pub is_valid_port : ℤ → Bool
is_valid_port port = le_ℤ (pos 1) port && le_ℤ port (pos 65535)

-- normalizeValidRange
unfoldable pub normalize_valid_range : Range → Result RangeError Range
normalize_valid_range r =
    let r = normalize r in
    if not (is_valid_port r.start) || not (is_valid_port r.end)
    then err invalid_port_bounds
    else ok r

abbrev pub by_numbers : Option ℤ → Option ℤ → Result RangeError Range
by_numbers none b = err invalid_number
by_numbers (some a) none = err invalid_number
by_numbers (some a) (some b) = normalize_valid_range (record { start = a; end = b })

abbrev pub by_parts : List Text → Result RangeError Range
by_parts (a ∷ b ∷ []) = by_numbers (atoi (trim_space a)) (atoi (trim_space b))
by_parts _ = err invalid_range

unfoldable pub parse_range : Text → Result RangeError Range
unfolding normalize_valid_range
parse_range s = by_parts (split_on 45 (trim_space s))

unfoldable pub is_excluded : ℤ → List Range → Bool
unfolding contains
is_excluded port [] = false
is_excluded port (r ∷ rs) = contains r port || is_excluded port rs

-- The loop of windowsExcludedRanges over the pairs of numbers in the lines of netsh.
unfoldable pub excluded_ranges : List (ℤ × ℤ) → List Range
excluded_ranges [] = []
excluded_ranges ((a, b) ∷ pairs) =
    let r = normalize (record { start = a; end = b }) in
    let rest = excluded_ranges pairs in
    if is_valid_port r.start && is_valid_port r.end then r ∷ rest else rest

-- The loop of PickTCP and PickUDP. `none`: the rounds were not enough.
unfoldable pub pick_from :
    ℕ → (available : ℤ → Bool) → List Range → (p last : ℤ) → Option (Result RangeError ℤ)
unfolding is_excluded
pick_from zero available ex p last = none
pick_from (suc rounds) available ex p last =
    let rest = pick_from rounds available ex (add64 p (pos 1)) last in
    if lt_ℤ last p
    then some (err no_available_port)
    else if is_excluded p ex
    then rest
    else if is_valid_port p && available p
    then some (ok p)
    else rest

abbrev pub pick_in :
    ℕ → (ℤ → Bool) → List (ℤ × ℤ) → Result RangeError Range → Option (Result RangeError ℤ)
pick_in rounds available pairs (err e) = some (err e)
pick_in rounds available pairs (ok r) =
    pick_from rounds available (excluded_ranges pairs) r.start r.end

-- PickTCP, and PickUDP: `available` says whether the port can be listened on.
unfoldable pub pick_port :
    ℕ → (available : ℤ → Bool) → List (ℤ × ℤ) → Range → Option (Result RangeError ℤ)
unfolding pick_from excluded_ranges normalize_valid_range
pick_port rounds available pairs r = pick_in rounds available pairs (normalize_valid_range r)
