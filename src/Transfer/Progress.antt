-- ===== src/Transfer/Progress.antt =====
-- progressReader: the live byte counters, and their rollback when an attempt fails. A counter is
-- the cell that the reader's pointer names.
pub mod Rollback
use multi_send.Base.{
  inr, inl, Bool-cases, subst, ℕ, ◌≡◌, refl, sym, ap, ◌∙◌, Bool, true, false, List, [], ◌∷◌, Option,
  none, some, String, arith, if◌then◌else◌, All,
}
use multi_send.Base.Int.{
  eq_ℤ_iff, add64-InRange, add64-sub64_undo, add64_zero, ℤ, pos, sub_ℕ, lt_ℤ, eq_ℤ, add64,
  add64_assoc, add64_comm, sub64, wrap64, InRange, pos_part, neg_part,
}
use multi_send.Base.Dict.{str_eq}

pub record Counters : Type 0 where
  pub cable : ℤ
  pub wifi : ℤ

pub data Counter : Type 0 where
  cable_counter wifi_counter no_counter : Counter

-- progressReader.counter
unfoldable pub counter : String → Counter
counter channel =
    if str_eq channel "cable"
    then cable_counter
    else if str_eq channel "loopback"
    then cable_counter
    else if str_eq channel "local"
    then cable_counter
    else if str_eq channel "wifi"
    then wifi_counter
    else no_counter

-- atomic.AddInt64 on the cell.
abbrev pub add_to : Counter → ℤ → Counters → Counters
add_to cable_counter n c = record c { cable = add64 c.cable n }
add_to wifi_counter n c = record c { wifi = add64 c.wifi n }
add_to no_counter n c = c

pub record Reader : Type 0 where
  pub channel : String
  pub counted : ℤ

abbrev pub count_by : Counter → ℤ → Reader → Reader
count_by no_counter n p = p
count_by _ n p = record p { counted = add64 p.counted n }

-- progressReader.Read, where the reader below gave n bytes.
unfoldable pub read : ℤ → Reader × Counters → Reader × Counters
unfolding counter
read n (p, c) =
    if lt_ℤ (pos 0) n
    then (count_by (counter p.channel) n p, add_to (counter p.channel) n c)
    else (p, c)

-- progressReader.rollback
unfoldable pub rollback : Reader × Counters → Reader × Counters
unfolding counter
rollback (p, c) =
    if eq_ℤ p.counted (pos 0)
    then (record p { counted = pos 0 }, c)
    else (record p { counted = pos 0 }, add_to (counter p.channel) (sub64 (pos 0) p.counted) c)

-- What happens to the counters while an attempt runs: it reads n bytes, or another one adds to a
-- counter.
pub data Traffic : Type 0 where
  mine : (n : ℤ) → Traffic
  theirs : (to : Counter) (n : ℤ) → Traffic

unfoldable pub flow : List Traffic → Reader × Counters → Reader × Counters
unfolding read
flow [] s = s
flow (mine n ∷ ts) s = flow ts (read n s)
flow (theirs to n ∷ ts) (p, c) = flow ts (p, add_to to n c)

-- The same without this attempt.
unfoldable pub others : List Traffic → Counters → Counters
others [] c = c
others (mine n ∷ ts) c = others ts c
others (theirs to n ∷ ts) c = others ts (add_to to n c)

-- The bytes that io.Copy has read and written.
unfoldable pub written : List Traffic → ℤ
written [] = pos 0
written (mine n ∷ ts) = let rest = written ts in if lt_ℤ (pos 0) n then add64 n rest else rest
written (theirs to n ∷ ts) = written ts
