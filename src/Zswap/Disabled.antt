-- ===== src/Zswap/Disabled.antt =====
-- What a collection reads where zswap is disabled.
use server_metrics.Base.{ℕ, ◌≡◌, ◌∙◌, sym, ap, List, Bool, false, codes, Result, ok, ◌>>=◌}
use server_metrics.Error.{Error}
use server_metrics.Util.{File, read_file}
use server_metrics.Zswap.{
  Floats, Files, Metric, parameter, parse_enabled, string_reader, value_reader, read_string,
  read_value, statistics_if, metrics_of, observe,
}

module _ {F : Type 0} (fl : Floats F) where
  -- What follows the two files that are read first.
  abbrev rest_of_observe :
      Files → ℕ → Result Error File → Result Error File → Bool → Result Error (List (Metric F))
  rest_of_observe files page_size compressor percent on =
      read_file compressor string_reader >>= λ c. read_file percent (value_reader fl) >>= λ p.
      statistics_if fl files page_size on >>= λ s. ok (metrics_of fl on c p s)

  observe_rest :
      (files : Files) (page_size : ℕ)
      → read_string files (parameter (codes "enabled")) ≡ ok (codes "N")
      → (observe fl files page_size
          ≡ rest_of_observe files page_size
              (files (parameter (codes "compressor")))
              (files (parameter (codes "max_pool_percent")))
              false)
  unfolding observe read_string read_value
  observe_rest files page_size h =
      ap
        (λ r. r >>= λ text. parse_enabled text >>= λ on.
          rest_of_observe files page_size (files (parameter (codes "compressor")))
            (files (parameter (codes "max_pool_percent"))) on)
        h

-- Where the file of the status says "N", the collection sends the same metrics, or returns the same
-- error, as any other that finds the same three files of parameters: it depends neither on the files
-- of statistics nor on the size of a page.
pub observe-off :
    {F : Type 0} (fl : Floats F) (files files' : Files) (page_size page_size' : ℕ)
    → read_string files (parameter (codes "enabled")) ≡ ok (codes "N")
    → files (parameter (codes "enabled")) ≡ files' (parameter (codes "enabled"))
    → files (parameter (codes "compressor")) ≡ files' (parameter (codes "compressor"))
    → files (parameter (codes "max_pool_percent")) ≡ files' (parameter (codes "max_pool_percent"))
    → observe fl files page_size ≡ observe fl files' page_size'
unfolding read_string statistics_if
observe-off fl files files' page_size page_size' off e compressor percent =
    observe_rest fl files page_size off
    ∙ ap
        (λ f.
          rest_of_observe fl files page_size f (files (parameter (codes "max_pool_percent"))) false)
        compressor
    ∙ ap (λ f. rest_of_observe fl files page_size (files' (parameter (codes "compressor"))) f false)
        percent
    ∙ sym (observe_rest fl files' page_size' (ap (λ f. read_file f string_reader) (sym e) ∙ off))
