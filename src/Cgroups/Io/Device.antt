-- ===== src/Cgroups/Io/Device.antt =====
-- internal/cgroups/io/collector.go: the usage of each device, and how it is read.
use mathlib.Core.Option
use server_metrics.Base.{
  ℕ, get_elem?, ◌>>=◌, Bool, List, [], ◌∷◌, Bytes, codes, bytes_eq, if◌then◌else◌, ℤ, pos, Result,
  ok,
}
use server_metrics.Error.{Error}
use server_metrics.Map.{Map, insert}
use server_metrics.Text.{has_prefix}
use server_metrics.Cgroups.Stat.Flat.{Stat, get}
use server_metrics.Cgroups.Usage.{ToUsage}

-- `deviceUsage`
pub record DeviceUsage : Type 0 where
  pub reads : ℤ
  pub writes : ℤ
  pub read : ℤ
  pub written : ℤ

-- The value at a place, or 0.
abbrev pub nth : List ℤ → ℕ → ℤ
nth vs i = Option.get_or (get_elem? vs i) (pos 0)

-- `ToUsage`
instance abbrev pub device_usage : ToUsage DeviceUsage
device_usage = record {
  names =
      codes "read operations"
      ∷ codes "write operations"
      ∷ codes "read bytes"
      ∷ codes "written bytes"
      ∷ [];
  values = λ u. u.reads ∷ u.writes ∷ u.read ∷ u.written ∷ [];
  write = λ vs. record { reads = nth vs 0; writes = nth vs 1; read = nth vs 2; written = nth vs 3 };
}

-- The field of each device: `Usage`.
abbrev pub Usage : Type 0
Usage = Map Bytes DeviceUsage

-- The four values are read in their order, and the error is that of the last one that is missing.
unfoldable pub usage_of : Stat → Result Error DeviceUsage
unfolding get
usage_of stat = do
  written ← get stat (codes "wbytes")
  read ← get stat (codes "rbytes")
  writes ← get stat (codes "wios")
  reads ← get stat (codes "rios")
  ok (record { reads = reads; writes = writes; read = read; written = written })

-- A loop device.
abbrev pub is_loop : Bytes → Bool
is_loop device = has_prefix device (codes "7:")

unfoldable pub take_device : Usage → Bytes → Stat → Result Error Usage
unfolding usage_of has_prefix insert
take_device usage device stat =
    if is_loop device then ok usage else (usage_of stat >>= λ u. ok (insert device u usage))

-- The loop of `collect`.
unfoldable pub take_devices : Usage → Map Bytes Stat → Result Error Usage
unfolding take_device
take_devices usage [] = ok usage
take_devices usage ((device, stat) ∷ stats) =
    take_device usage device stat >>= λ usage'. take_devices usage' stats
