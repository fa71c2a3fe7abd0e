-- ===== src/Environ/Cache/Config/Units.antt =====
-- wasmtime-environ/src/cache/config.rs: the units of the settings.
use wasmtime.Base.{
  ap, ℕ, ◌*◌, ◌^◌, ◌%◌, ◌≡◌, ◌<◌, refl, Option, none, some, usize_mod, arith, ltb,
  checked_mul_usize, if◌then◌else◌, ◌>>=◌,
}
use wasmtime.Environ.Cache.Config.{
  SettingUnit, plain, second, minute, hour, day, kilo, kibi, mega, mebi, giga, gibi, tera, tebi,
  peta, pebi, percent, other, deserialize_disk_space, deserialize_duration,
}

-- The bytes of a unit of disk space.
abbrev pub bytes : SettingUnit → Option ℕ
bytes plain = some 1
bytes kilo = some (10 ^ 3)
bytes kibi = some (2 ^ 10)
bytes mega = some (10 ^ 6)
bytes mebi = some (2 ^ 20)
bytes giga = some (10 ^ 9)
bytes gibi = some (2 ^ 30)
bytes tera = some (10 ^ 12)
bytes tebi = some (2 ^ 40)
bytes peta = some (10 ^ 15)
bytes pebi = some (2 ^ 50)
bytes _ = none

-- The seconds of a unit of time.
abbrev pub seconds : SettingUnit → Option ℕ
seconds second = some 1
seconds minute = some 60
seconds hour = some 3600
seconds day = some 86400
seconds _ = none

abbrev scaled : ℕ → Option ℕ → Option ℕ
scaled num none = none
scaled num (some n) = if ltb (num * n) usize_mod then some (num * n) else none

-- A number that a setting can hold, with a unit of disk space, gives the product where that is less
-- than 2^64, and is refused otherwise, as it is with any other unit.
pub deserialize_disk_space_lem :
    (num : ℕ) (u : SettingUnit)
    → num < usize_mod
    → deserialize_disk_space num u ≡ scaled num (bytes u)
unfolding deserialize_disk_space checked_mul_usize
deserialize_disk_space_lem num plain h = ground arith
deserialize_disk_space_lem num kilo h = refl
deserialize_disk_space_lem num kibi h = refl
deserialize_disk_space_lem num mega h = refl
deserialize_disk_space_lem num mebi h = refl
deserialize_disk_space_lem num giga h = refl
deserialize_disk_space_lem num gibi h = refl
deserialize_disk_space_lem num tera h = refl
deserialize_disk_space_lem num tebi h = refl
deserialize_disk_space_lem num peta h = refl
deserialize_disk_space_lem num pebi h = refl
deserialize_disk_space_lem num second h = refl
deserialize_disk_space_lem num minute h = refl
deserialize_disk_space_lem num hour h = refl
deserialize_disk_space_lem num day h = refl
deserialize_disk_space_lem num percent h = refl
deserialize_disk_space_lem num other h = refl

-- A duration is the product modulo 2^64, and only units of time are accepted.
pub deserialize_duration_wraps :
    (num : ℕ) (u : SettingUnit)
    → num < usize_mod
    → deserialize_duration num u ≡ (seconds u >>= λ n. some ((num * n) % usize_mod))
unfolding deserialize_duration
deserialize_duration_wraps num second h = ap some (omega arith)
deserialize_duration_wraps num minute h = ap some (omega arith)
deserialize_duration_wraps num hour h = ap some (omega arith)
deserialize_duration_wraps num day h = ap some (omega arith)
deserialize_duration_wraps num plain h = refl
deserialize_duration_wraps num kilo h = refl
deserialize_duration_wraps num kibi h = refl
deserialize_duration_wraps num mega h = refl
deserialize_duration_wraps num mebi h = refl
deserialize_duration_wraps num giga h = refl
deserialize_duration_wraps num gibi h = refl
deserialize_duration_wraps num tera h = refl
deserialize_duration_wraps num tebi h = refl
deserialize_duration_wraps num peta h = refl
deserialize_duration_wraps num pebi h = refl
deserialize_duration_wraps num percent h = refl
deserialize_duration_wraps num other h = refl
