-- ===== src/Averager.antt =====
-- lib/Averager.cc: the averaging groups, and the samples that the query of addGeneric takes for one.
pub mod Laws
pub mod Add
pub mod Daemon
use meteo.Base.{ℕ, ◌-◌, ◌%◌, Bool, not, ◌&&◌}
use meteo.Base.Int.{ℤ, pos, ltb_ℤ, ◌+ℤ◌, ◌-ℤ◌}

-- class groupinfo
pub record GroupInfo : Type 0 where
  pub group_key : ℕ
  pub time_from : ℤ
  pub time_to : ℤ

abbrev pub group_info : ℕ → ℕ → ℤ → GroupInfo
group_info tk interval offset =
    let timekey = tk - tk % interval in
    let start = pos timekey -ℤ offset in
    record { group_key = timekey; time_from = start; time_to = start +ℤ pos interval }

-- `b.timekey >= from and b.timekey <= to` in the query of Averager::addGeneric
abbrev pub selects : GroupInfo → ℤ → Bool
selects g t = not (ltb_ℤ t g.time_from) && not (ltb_ℤ g.time_to t)
