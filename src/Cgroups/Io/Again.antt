-- ===== src/Cgroups/Io/Again.antt =====
-- What the next collection of a group with children compares with.
use server_metrics.Base.{bytes_eq}
use server_metrics.Error.{Error}
use server_metrics.Map.{Map}
use server_metrics.Cgroups.Group.{Group}
