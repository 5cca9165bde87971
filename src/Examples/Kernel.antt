-- ===== src/Examples/Kernel.antt =====
-- The theorems on the kernel's log at concrete inputs.
use server_metrics.Base.{
  ◌≤◌, ◌≡◌, ◌↔◌, ◌⊎◌, refl, true, false, List, [], ◌∷◌, ◌++◌, some, Bytes, codes, arith, All, pos,
  bytes_eq,
}
use server_metrics.Text.{parse_int, replace_all}
use server_metrics.Text.Split.{join}
use server_metrics.Kernel.Matchers.Iommu.{Takes, match_amd_iommu_iff}
use server_metrics.Kernel.Classifier.Rounds.{PassesOver, TakesAway, scan_step-within}
use server_metrics.Kernel.LogEntry.{LogEntry, parse_log_entry}
use server_metrics.Kernel.LogEntry.Fields.{parse_log_entry-record}
use server_metrics.Kernel.Matchers.{unknown, Matcher, match_amd_iommu}
use server_metrics.Kernel.Classifier.{Scan, new_classifier, classify}
use server_metrics.Kernel.Classifier.Bounds.{new_classifier-TakesWithin}
use server_metrics.Kernel.Classifier.Segments.{Reports, classify_iff}
use server_metrics.Kernel.Collector.{
  Event, entry, fired, bytes_read, too_big, file_closed, log_reader, log_processor,
}
use server_metrics.Kernel.Collector.Groups.{log_processor-groups}
use server_metrics.Kernel.Collector.Groups.Kept.{IsGroup, counted, joined}
use server_metrics.Kernel.Collector.Reading.{log_reader-priority, log_reader-append}

abbrev matchers : List Matcher
matchers = new_classifier true false

abbrev messages : List Bytes
messages =
    codes "oops"
    ∷ codes "UBSAN: array-index-out-of-bounds in a.c:1"
    ∷ codes "index 5 is out of range for type 'int [4]'"
    ∷ []

-- A scan in front of its second message.
abbrev second : Scan
second = record { messages = codes "oops" ∷ codes "bang" ∷ []; index = 1; errors = [] }

scan_step-within_example :
    PassesOver (new_classifier true false) second ⊎ TakesAway (new_classifier true false) second
scan_step-within_example = scan_step-within true false second (omega arith)

classify_iff_example :
    (classify matchers messages ≡ unknown ∷ []) ↔ Reports matchers false messages (unknown ∷ [])
classify_iff_example =
    classify_iff matchers (new_classifier-TakesWithin true false) messages (unknown ∷ [])

abbrev oops : LogEntry
oops = record { priority = 3; time = pos 1_000_000; message = codes "oops" }

abbrev late_oops : LogEntry
late_oops = record { priority = 2; time = pos 900_000_000; message = codes "oops again" }

abbrev events : List Event
events = entry oops ∷ fired (pos 5_000_000) ∷ entry late_oops ∷ []

log_processor-groups_example :
    (groups : List (List LogEntry)) × All IsGroup groups
    × (joined matchers groups ≡ oops ∷ late_oops ∷ [])
    × ((log_processor matchers events).errors ≡ counted matchers groups)
    × ((log_processor matchers events).group ≡ [])
log_processor-groups_example = log_processor-groups matchers events

abbrev record_of : Bytes
record_of = codes "3,12,1000,-;oops\n"

log_reader-priority_example :
    All (λ e. e.priority ≤ 3) (log_reader (bytes_read record_of ∷ file_closed ∷ [])).0
log_reader-priority_example = log_reader-priority (bytes_read record_of ∷ file_closed ∷ [])

log_reader-append_example : log_reader (too_big ∷ bytes_read record_of ∷ file_closed ∷ []) ≡ (
  (log_reader (too_big ∷ [])).0 ++ (log_reader (bytes_read record_of ∷ file_closed ∷ [])).0,
  (log_reader (bytes_read record_of ∷ file_closed ∷ [])).1,
)
log_reader-append_example =
    log_reader-append (too_big ∷ []) (bytes_read record_of ∷ file_closed ∷ []) (refl, tt)

parse_log_entry-record_example :
    parse_log_entry (codes "3,12,1000,-;oops\n SUBSYSTEM=x\n")
    ≡ some (record {
      priority = 3;
      time = pos 1_000_000;
      message = replace_all (codes "oops") (codes "\\x0a") (codes "\n");
    })
unfolding parse_int join
parse_log_entry-record_example =
    parse_log_entry-record (codes "3") (codes "12") (codes "1000") (codes "-") [] (codes "oops")
      (codes " SUBSYSTEM=x\n") 3 1000 (ground arith) (ground arith) (ground arith) refl
      (omega arith) refl (omega arith)

abbrev failed_device : Bytes
failed_device = codes "kfd kfd: amdgpu: Failed to resume IOMMU for device 1002:15d8"

match_amd_iommu_iff_example :
    (match_amd_iommu (failed_device ∷ codes "oops" ∷ []) ≡ (1, []))
    ↔ Takes failed_device (codes "oops" ∷ []) 1
match_amd_iommu_iff_example = match_amd_iommu_iff failed_device (codes "oops" ∷ []) 1 (omega arith)
