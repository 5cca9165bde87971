-- ===== src/Zswap.antt =====
-- internal/zswap/collector.go: the statistics of the compressed swap.
pub mod Disabled
use server_metrics.Base.{
  ℕ, Bool, true, false, List, [], ◌∷◌, ◌++◌, Option, none, some, Bytes, codes, ◌==◌, same,
  if◌then◌else◌, Result, ok, err, ◌>>=◌,
}
use server_metrics.Error.{Error, system, invalid_value, invalid_number}
use server_metrics.Text.{drop_while_end, parse_uint}
use server_metrics.Util.{Reader, File, read_file}
use server_metrics.Cgroups.Group.{enoent}

-- The float64 of the processor, which the values are converted to.
pub record Floats (F : Type 0) : Type 0 where
  pub of_uint : ℕ → F
  pub plus : F → F → F
  pub times : F → F → F
  pub over : F → F → F
  pub is_zero : F → Bool

-- The files as `os.Open` gives them.
abbrev pub Files : Type 0
Files = Bytes → Result Error File

abbrev pub parameter : Bytes → Bytes
parameter name = codes "/sys/module/zswap/parameters/" ++ name

abbrev pub statistic : Bytes → Bytes
statistic name = codes "/sys/kernel/debug/zswap/" ++ name

read_all : Option Error → Bytes → Result Error Bytes
read_all (some e) content = err e
read_all none content = ok (drop_while_end (λ c. c == b'\n') content)

-- The function that `readString` gives to `ReadFileReturning`.
unfoldable pub string_reader : Reader → Result Error Bytes
unfolding read_all drop_while_end
string_reader r = read_all r.failure r.content

unfoldable pub read_string : Files → Bytes → Result Error Bytes
unfolding read_file string_reader
read_string files path = read_file (files path) string_reader

parsed {ℓ} : {F : Type ℓ} → (ℕ → F) → Bytes → Option ℕ → Result Error F
parsed of_uint text none = err (invalid_number text)
parsed of_uint text (some n) = ok (of_uint n)

-- What `observe` reads of the statistics.
pub record Statistics (F : Type 0) : Type 0 where
  pub pool_size : F
  pub stored_size : F
  pub pool_limit_hits : F
  pub allocation_failure_rejects : F
  pub poor_compression_rejects : F
  pub reclaim_errors : F
  pub compression_errors : F

pub data Name : Type 0 where
  enabled max_pool_percent pool_size stored_size compression_ratio rejects errors : Name

-- A metric with its label, if it has one.
pub record Metric (F : Type 0) : Type 0 where
  pub name : Name
  pub labels : List Bytes
  pub value : F

-- `os.IsNotExist`
unfoldable pub is_not_exist : Error → Bool
is_not_exist (system n) = n == enoent
is_not_exist _ = false

unfoldable pub parse_enabled : Bytes → Result Error Bool
parse_enabled text =
    if same text (codes "Y")
    then ok true
    else if same text (codes "N")
    then ok false
    else err (invalid_value (parameter (codes "enabled")))

module _ {F : Type 0} (fl : Floats F) where
  -- The function that `readValue` gives to `ReadFileReturning`.
  unfoldable pub value_reader : Reader → Result Error F
  unfolding string_reader parsed parse_uint
  value_reader r = string_reader r >>= λ text. parsed fl.of_uint text (parse_uint text)

  unfoldable pub read_value : Files → Bytes → Result Error F
  unfolding read_file value_reader
  read_value files path = read_file (files path) value_reader

  closed : Option Error → F → Result Error F
  unfolding is_not_exist
  closed none value = ok value
  closed (some e) value = if is_not_exist e then ok value else err e

  -- A value that old kernels do not have; an error of the reader itself is wrapped, so that it is no
  -- error of a file that does not exist.
  unfoldable pub read_if_exists : Result Error File → Result Error F
  unfolding closed value_reader is_not_exist
  read_if_exists (err e) = if is_not_exist e then ok (fl.of_uint 0) else err e
  read_if_exists (ok f) = value_reader f.reader >>= λ value. closed f.close_failure value

  unfoldable pub read_statistics : Files → ℕ → Result Error (Statistics F)
  unfolding read_value read_if_exists
  read_statistics files page_size = do
    pool ← read_value files (statistic (codes "pool_total_size"))
    stored_pages ← read_value files (statistic (codes "stored_pages"))
    hits ← read_value files (statistic (codes "pool_limit_hit"))
    allocation ← read_value files (statistic (codes "reject_alloc_fail"))
    kmemcache ← read_value files (statistic (codes "reject_kmemcache_fail"))
    poor ← read_value files (statistic (codes "reject_compress_poor"))
    reclaim ← read_value files (statistic (codes "reject_reclaim_fail"))
    compression ← read_if_exists (files (statistic (codes "reject_compress_fail")))
    ok (record {
      pool_size = pool;
      stored_size = fl.times stored_pages (fl.of_uint page_size);
      pool_limit_hits = hits;
      allocation_failure_rejects = fl.plus allocation kmemcache;
      poor_compression_rejects = poor;
      reclaim_errors = reclaim;
      compression_errors = compression;
    })

  -- The zero values of the variables.
  unfoldable pub no_statistics : Statistics F
  no_statistics =
      let zero = fl.of_uint 0 in
      record {
        pool_size = zero;
        stored_size = zero;
        pool_limit_hits = zero;
        allocation_failure_rejects = zero;
        poor_compression_rejects = zero;
        reclaim_errors = zero;
        compression_errors = zero;
      }

  abbrev pub metric : Name → List Bytes → F → Metric F
  metric name labels value = record { name = name; labels = labels; value = value }

  -- The metrics in the order in which they are sent.
  unfoldable pub metrics_of : Bool → Bytes → F → Statistics F → List (Metric F)
  metrics_of on compressor percent s =
      metric enabled (compressor ∷ []) (fl.of_uint (if on then 1 else 0))
        ∷ metric max_pool_percent [] percent
        ∷ metric pool_size [] s.pool_size
        ∷ metric stored_size [] s.stored_size
        ∷ (if fl.is_zero s.pool_size
            then []
            else metric compression_ratio [] (fl.over s.stored_size s.pool_size) ∷ [])
      ++ (metric rejects (codes "pool-limit-reached" ∷ []) s.pool_limit_hits
          ∷ metric rejects (codes "allocation-failure" ∷ []) s.allocation_failure_rejects
          ∷ metric rejects (codes "poor-compression" ∷ []) s.poor_compression_rejects
          ∷ metric errors (codes "reclaim" ∷ []) s.reclaim_errors
          ∷ metric errors (codes "compression" ∷ []) s.compression_errors
          ∷ [])

  -- The statistics are only there if it is enabled.
  unfoldable pub statistics_if : Files → ℕ → Bool → Result Error (Statistics F)
  unfolding read_statistics no_statistics
  statistics_if files page_size true = read_statistics files page_size
  statistics_if files page_size false = ok no_statistics

  -- `observe`: the metrics, or the error that it returns before it sends any.
  unfoldable pub observe : Files → ℕ → Result Error (List (Metric F))
  unfolding read_string parse_enabled read_value statistics_if metrics_of
  observe files page_size = do
    text ← read_string files (parameter (codes "enabled"))
    on ← parse_enabled text
    compressor ← read_string files (parameter (codes "compressor"))
    percent ← read_value files (parameter (codes "max_pool_percent"))
    statistics ← statistics_if files page_size on
    ok (metrics_of on compressor percent statistics)
