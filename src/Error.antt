-- ===== src/Error.antt =====
-- The errors that the program makes. Go's errors are texts; a constructor stands for each format
-- string, with the values that the callers or the log can tell apart.
use server_metrics.Base.{ℕ, ℤ, Bytes}

pub data Error : Type 0 where
  -- an error of the operating system, by its number, or of a service
  system : ℕ → Error
  -- bufio.ErrTooLong
  too_long_line : Error
  -- "Got an unexpected … line"
  unexpected_line : Bytes → Error
  -- "Got a duplicated … key", name, counter or column
  duplicated_key : Bytes → Error
  -- "… entry of … is missing", "column … is missing"
  missing_entry : Bytes → Error
  -- "… is missing", of a property of a cgroup
  missing_property : Bytes → Error
  -- "… has been deleted during metrics collection"
  deleted_group : Bytes → Error
  -- "Got a negative …"
  negative_usage : Bytes → Error
  -- "the file is empty"
  empty_file : Error
  -- "invalid <…> value"
  invalid_value : Bytes → Error
  -- "got … columns when … is expected"
  wrong_column_count : ℕ → Error
  -- "Got … set element of an unexpected size"
  unexpected_size : ℕ → Error
  -- "Got an invalid IP"
  invalid_ip : Bytes → Error
  -- "Got an unexpected protocol"
  unexpected_protocol : ℕ → Error
  -- "/proc is not mounted", "… is not mounted"
  not_mounted : Error
  -- the panic of an index that is out of range
  index_out_of_range : Error
  -- an error of `strconv.Atoi`
  invalid_number : Bytes → Error
  -- "unable to resolve … user ID"
  unresolved_user : ℤ → Error → Error
  -- "… has been deleted between metrics collection"
  deleted_between : Bytes → Error
  -- "… device: …"
  device_error : Bytes → Error → Error
  -- "Invalid user ID"
  invalid_user_id : Error
