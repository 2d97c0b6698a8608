-- ===== src/Ssnet/Cmd.antt =====
-- rushtle/src/ssnet.rs, the command codes, and the names that the log lines have for them.
use kubectl_sshuttle.Base.{ℕ, codes, ◌==◌, if◌then◌else◌}
use kubectl_sshuttle.Text.Utf8.{Str}

abbrev pub exit : ℕ
exit = 0x4200

abbrev pub ping : ℕ
ping = 0x4201

abbrev pub pong : ℕ
pong = 0x4202

abbrev pub tcp_connect : ℕ
tcp_connect = 0x4203

abbrev pub tcp_stop_sending : ℕ
tcp_stop_sending = 0x4204

abbrev pub tcp_eof : ℕ
tcp_eof = 0x4205

abbrev pub tcp_data : ℕ
tcp_data = 0x4206

abbrev pub routes : ℕ
routes = 0x4207

abbrev pub host_req : ℕ
host_req = 0x4208

abbrev pub host_list : ℕ
host_list = 0x4209

abbrev pub dns_req : ℕ
dns_req = 0x420a

abbrev pub dns_response : ℕ
dns_response = 0x420b

abbrev pub udp_open : ℕ
udp_open = 0x420c

abbrev pub udp_data : ℕ
udp_data = 0x420d

abbrev pub udp_close : ℕ
udp_close = 0x420e

-- `Frame::cmd_name`
pub cmd_name : ℕ → Str
cmd_name cmd =
    if cmd == exit
    then codes "EXIT"
    else if cmd == ping
    then codes "PING"
    else if cmd == pong
    then codes "PONG"
    else if cmd == tcp_connect
    then codes "TCP_CONNECT"
    else if cmd == tcp_stop_sending
    then codes "TCP_STOP_SENDING"
    else if cmd == tcp_eof
    then codes "TCP_EOF"
    else if cmd == tcp_data
    then codes "TCP_DATA"
    else if cmd == routes
    then codes "ROUTES"
    else if cmd == host_req
    then codes "HOST_REQ"
    else if cmd == host_list
    then codes "HOST_LIST"
    else if cmd == dns_req
    then codes "DNS_REQ"
    else if cmd == dns_response
    then codes "DNS_RESPONSE"
    else if cmd == udp_open
    then codes "UDP_OPEN"
    else if cmd == udp_data
    then codes "UDP_DATA"
    else if cmd == udp_close
    then codes "UDP_CLOSE"
    else codes "UNKNOWN"
