-- ===== src/Time/Level.antt =====
-- lib/Level.cc and include/Level.h: the levels of the time hierarchy.
pub mod Laws
use meteo.Base.{
  ℕ, Bool, true, false, Option, none, some, Result, ok, err, illegal_label, illegal_interval,
  cannot_go_up, cannot_go_down, String, ◌==◌, if◌then◌else◌,
}
use meteo.Base.Text.{str_eq}

pub data Level : Type 0 where
  hour day week month year : Level

-- Level(const std::string&); `none` is a level that stays uninitialised.
pub of_name : String → Option Level
of_name levelname =
    if str_eq levelname "hour"
    then some hour
    else if str_eq levelname "day"
    then some day
    else if str_eq levelname "week"
    then some week
    else if str_eq levelname "month"
    then some month
    else if str_eq levelname "year"
    then some year
    else none

-- Level(const char)
unfoldable pub of_char : ℕ → Result Level
of_char c =
    if c == b'h'
    then ok hour
    else if c == b'd'
    then ok day
    else if c == b'w'
    then ok week
    else if c == b'm'
    then ok month
    else if c == b'y'
    then ok year
    else err illegal_label

-- Level(const int)
unfoldable pub of_interval : ℕ → Result Level
of_interval interval =
    if interval == 60
    then ok hour
    else if interval == 300
    then ok day
    else if interval == 1800
    then ok week
    else if interval == 7200
    then ok month
    else if interval == 86400
    then ok year
    else err illegal_interval

pub get_level_string : Level → String
get_level_string hour = "hour"
get_level_string day = "day"
get_level_string week = "week"
get_level_string month = "month"
get_level_string year = "year"

unfoldable pub get_interval : Level → ℕ
get_interval hour = 60
get_interval day = 300
get_interval week = 1800
get_interval month = 7200
get_interval year = 86400

unfoldable pub get_duration : Level → ℕ
get_duration hour = 3600
get_duration day = 86400
get_duration week = 604800
get_duration month = 2629743
get_duration year = 31556926

unfoldable pub up : Level → Result Level
up hour = ok day
up day = ok week
up week = ok month
up month = ok year
up year = err cannot_go_up

unfoldable pub down : Level → Result Level
down year = ok month
down month = ok week
down week = ok day
down day = ok hour
down hour = err cannot_go_down
