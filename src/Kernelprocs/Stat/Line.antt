-- ===== src/Kernelprocs/Stat/Line.antt =====
-- What a file `/proc/…/stat` is parsed to.
use server_metrics.Base.{
  ℕ, suc, ◌+◌, ◌-◌, ◌≤◌, ◌≡◌, ◌∙◌, ap, sym, List, [], ◌∷◌, ◌++◌, append_assoc, some, Bytes, arith,
  length, length-append, take, drop, get_elem?, All, drop-append,
}
use server_metrics.Text.{last_index_byte, split}
use server_metrics.Text.Split.{Lacks, join, split-join}
use server_metrics.Text.Find.{
  index_byte-append, last_index_byte-append, take-append, drop-append_cons, Lacks-join,
}
use server_metrics.Text.{parse_uint}
use server_metrics.Kernelprocs.Stat.{
  stime_pos, parse_stime, with_name, parse_between, parse_proc_stat,
}

-- The text behind the name, with its bracket.
abbrev behind : List Bytes → Bytes
behind fields = join ((b')' ∷ []) ∷ fields) b' '

-- The file's text.
abbrev pub stat_text : Bytes → Bytes → List Bytes → Bytes
stat_text pid name fields = pid ++ (b'(' ∷ name ++ behind fields)

-- The text up to the last bracket.
abbrev front : Bytes → Bytes → Bytes
front pid name = pid ++ (b'(' ∷ name)

stat_text-front :
    (pid name first : Bytes) (more : List Bytes)
    → stat_text pid name (first ∷ more) ≡ front pid name ++ behind (first ∷ more)
stat_text-front pid name first more = sym (append_assoc pid (b'(' ∷ name) (behind (first ∷ more)))

length-front : (pid name : Bytes) → length (front pid name) ≡ length pid + 1 + length name
length-front pid name = omega (arith, length-append pid (b'(' ∷ name))

take-front :
    (pid name more : Bytes)
    → take
        (length (front pid name) - (length pid + 1))
        (drop (length pid + 1) (pid ++ (b'(' ∷ name ++ more)))
      ≡ name
take-front pid name more =
    let size : length (front pid name) - (length pid + 1) ≡ length name =
      omega (arith, length-front pid name) in
    let at : length pid + 1 ≡ suc (length pid) = omega arith in
    ap (λ n. take n (drop (length pid + 1) (pid ++ (b'(' ∷ name ++ more)))) size
    ∙ ap (λ n. take (length name) (drop n (pid ++ (b'(' ∷ name ++ more)))) at
    ∙ ap (take (length name)) (drop-append_cons pid b'(' (name ++ more))
    ∙ take-append name more

last-stat_text :
    (pid name first : Bytes) (more : List Bytes)
    → All (Lacks b')') (first ∷ more)
    → last_index_byte (stat_text pid name (first ∷ more)) b')' ≡ some (length (front pid name))
unfolding join
last-stat_text pid name first more no_close =
    ap (λ s. last_index_byte s b')') (stat_text-front pid name first more)
    ∙ last_index_byte-append (front pid name) b')' (b' ' ∷ join (first ∷ more) b' ')
        (omega arith, Lacks-join b')' b' ' (first ∷ more) (omega arith) no_close)

split-stat_text :
    (pid name first : Bytes) (more : List Bytes)
    → All (Lacks b' ') (first ∷ more)
    → split (drop (length (front pid name)) (stat_text pid name (first ∷ more))) b' '
      ≡ (b')' ∷ []) ∷ first ∷ more
split-stat_text pid name first more no_space =
    ap (λ s. split (drop (length (front pid name)) s) b' ') (stat_text-front pid name first more)
    ∙ ap (λ s. split s b' ') (drop-append (front pid name) (behind (first ∷ more)))
    ∙ split-join (b')' ∷ []) (first ∷ more) b' ' ((omega arith, tt), no_space)

parse_between-some :
    (content : Bytes) (a b : ℕ) {text : Bytes} {usage : ℕ}
    → a ≤ b
    → get_elem? (split (drop b content) b' ') stime_pos ≡ some text
    → parse_uint text ≡ some usage
    → parse_between content (some a) (some b)
      ≡ some (record { name = take (b - (a + 1)) (drop (a + 1) content); usage = usage })
unfolding parse_between parse_stime with_name
parse_between-some content a b le at number = rw (at, number) (ground arith)

-- The name is what stands between the first and the last bracket, whatever brackets and spaces it
-- has itself, and the CPU time is the 13th field behind it, if that is a number.
pub parse_proc_stat-fields :
    (pid name : Bytes) (first : Bytes) (more : List Bytes) (text : Bytes) (usage : ℕ)
    → Lacks b'(' pid
    → All (Lacks b' ') (first ∷ more)
    → All (Lacks b')') (first ∷ more)
    → get_elem? (first ∷ more) 12 ≡ some text
    → parse_uint text ≡ some usage
    → parse_proc_stat (stat_text pid name (first ∷ more))
      ≡ some (record { name = name; usage = usage })
unfolding parse_proc_stat
parse_proc_stat-fields pid name first more text usage no_open no_space no_close at number =
    let whole : Bytes = stat_text pid name (first ∷ more) in
    let within : length pid ≤ length (front pid name) = omega (arith, length-front pid name) in
    let found : get_elem? (split (drop (length (front pid name)) whole) b' ') stime_pos
        ≡ some text =
      ap (λ ps. get_elem? ps stime_pos) (split-stat_text pid name first more no_space) ∙ at in
    rw
      (
        index_byte-append pid b'(' (name ++ behind (first ∷ more)) no_open,
        last-stat_text pid name first more no_close,
      )
      (parse_between-some whole (length pid) (length (front pid name)) within found number
        ∙ ap (λ n. some (record { name = n; usage = usage }))
            (take-front pid name (behind (first ∷ more))))
