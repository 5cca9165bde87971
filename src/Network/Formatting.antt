-- ===== src/Network/Formatting.antt =====
-- internal/network/types.go: the ports of an address, for the log.
use server_metrics.Base.{◌++◌, Bytes, true, codes, length}
use server_metrics.Util.Formatting.{format_number, format_list}
use server_metrics.Network.Rejects.{IpStat}

-- `ipStat.String`
unfoldable pub format_ip_stat : IpStat → Bytes
unfolding format_number format_list
format_ip_stat s =
    format_number (length s.tcp_ports)
    ++ codes " TCP ("
    ++ format_list s.tcp_ports true
    ++ codes "), "
    ++ format_number (length s.udp_ports)
    ++ codes " UDP ("
    ++ format_list s.udp_ports true
    ++ codes ")"
