-- ===== src/Examples/Files.antt =====
-- The theorems on files of the kernel at concrete inputs.
use server_metrics.Base.{
  ◌≡◌, ◌≢◌, ◌↔◌, refl, true, List, [], ◌∷◌, none, Bytes, codes, arith, pos, Result, ok, err,
  bytes_eq,
}
use server_metrics.Error.{Error, index_out_of_range}
use server_metrics.Text.{split, drop_while_end}
use server_metrics.Map.{HasUniqueKeys}
use server_metrics.Util.{Reader, scan_lines}
use server_metrics.Util.Lines.{payload}
use server_metrics.Slab.Info.{
  SlabInfo, SlabInfoHeader, split_slab_info_line, parse_slab_info_header, parse_slab_info_stat_line,
}
use server_metrics.Slab.Info.Columns.{
  IsComplete, parse_slab_info_header-IsComplete, parse_slab_info_stat_line-safe,
}
use server_metrics.Slab.Details.{Cache, parse_reclaim_account, observe_slabs}
use server_metrics.Slab.Details.Cached.{IsRead, labelled, observe_slabs-labelled}
use server_metrics.Meminfo.{Meminfo, parse_meminfo}
use server_metrics.Meminfo.Counters.{StateCounters, parse_meminfo_iff}

abbrev header_line : Bytes
header_line = codes "name  <num_slabs> <pagesperslab>"

abbrev header : SlabInfoHeader
header = record { columns = 3; num_slabs_column = 1; pages_per_slab_column = 2 }

parse_slab_info_header-IsComplete_example : IsComplete (split_slab_info_line header_line) header
unfolding parse_slab_info_header split
parse_slab_info_header-IsComplete_example = parse_slab_info_header-IsComplete header_line refl

parse_slab_info_stat_line-safe_example :
    parse_slab_info_stat_line (pos 4096) header (codes "dentry 5 1") ≢ err index_out_of_range
unfolding parse_slab_info_header split
parse_slab_info_stat_line-safe_example =
    parse_slab_info_stat_line-safe (pos 4096) header_line (codes "dentry 5 1") refl

-- Every slab is reclaimable.
abbrev details : Bytes → Result Error Bytes
details name = ok (codes "1\n")

abbrev cache : Cache
cache = (codes "dentry", true) ∷ []

abbrev slabs : List SlabInfo
slabs =
    record { name = codes "dentry"; size = pos 4096 }
    ∷ record { name = codes "inode"; size = pos 8192 }
    ∷ []

observe_slabs-labelled_example :
    ((observe_slabs details cache slabs).0 ≡ labelled details slabs)
    × IsRead details (observe_slabs details cache slabs).1
unfolding parse_reclaim_account drop_while_end
observe_slabs-labelled_example = observe_slabs-labelled details cache slabs (refl, tt)

abbrev meminfo_file : Reader
meminfo_file = record { content = codes "MemTotal:  2 kB\nPages: 7\n"; failure = none }

abbrev counters : Meminfo
counters = (codes "MemTotal", pos 2048) ∷ (codes "Pages", pos 7) ∷ []

parse_meminfo_iff_example :
    (parse_meminfo meminfo_file ≡ ok counters)
    ↔ (StateCounters (payload meminfo_file) counters × HasUniqueKeys counters)
unfolding scan_lines split
parse_meminfo_iff_example = parse_meminfo_iff meminfo_file refl (ground arith) counters
