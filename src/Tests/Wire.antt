-- ===== src/Tests/Wire.antt =====
-- rushtle/src/ssnet.rs on concrete bytes.
use kubectl_sshuttle.Base.{
  ℕ, suc, ◌≤◌, ◌<◌, ◌≡◌, none, some, List, [], ◌∷◌, ◌++◌, arith, length, take, replicate,
  length-replicate, codes, All, Lacks, early_eof, ltb, if◌then◌else◌, ok, inl,
}
use kubectl_sshuttle.Text.Utf8.{Bytes}
use kubectl_sshuttle.Stream.{Input, input, Ending, done, failed}
use kubectl_sshuttle.Ssnet.Cmd
use kubectl_sshuttle.Ssnet.Frame.{
  Frame, frame, IsFrame, hdr_len, max_payload, header, to_be, encode, read_frame,
}
use kubectl_sshuttle.Ssnet.Frame.RoundTrip.{read_frame-encode}
use kubectl_sshuttle.Ssnet.Frame.Sound.{read_frame_sound}
use kubectl_sshuttle.Ssnet.Frame.Endings.{read_frame_cut}
use kubectl_sshuttle.Ssnet.Tasks.{
  eof, writer_task, frames, encode_all, fresh, frames-writer_task, writer_task_stops,
}
use kubectl_sshuttle.Ssnet.Sync.{expected, read_sync_header_sound, read_sync_header_complete}
use kubectl_sshuttle.Ssnet.Connect.{parse_connect, encode_connect, parse_connect-encode_connect}
use kubectl_sshuttle.Ssnet.Udp.{parse_udp_data, encode_udp_data, parse_udp_data-encode_udp_data}

abbrev two_frames : List Frame
two_frames = frame 1 Cmd.tcp_data (codes "hi") ∷ frame 1 Cmd.tcp_eof [] ∷ []

frames-writer_task_example :
    frames (suc (length two_frames)) (input (writer_task 500 two_frames fresh).sent Ending.closed)
    ≡ (two_frames, eof)
frames-writer_task_example = frames-writer_task 500 two_frames (omega arith)

-- one byte over the limit
abbrev over_long : Frame
over_long = frame 0 Cmd.host_list (replicate (suc max_payload) 0)

writer_task_stops_example :
    (writer_task 0 (two_frames ++ over_long ∷ two_frames) fresh).sent ≡ encode_all two_frames
writer_task_stops_example =
    writer_task_stops 0 two_frames two_frames over_long (omega arith)
      (omega (arith, length-replicate {A = ℕ} (suc max_payload) 0))

abbrev ping : Frame
ping = frame 7 Cmd.ping (codes "hi")

ping-IsFrame : IsFrame ping
ping-IsFrame = record { channel_u16 = omega arith; cmd_u16 = omega arith; payload_u8 = omega arith }

abbrev ping_input : Input
ping_input = input (encode ping ++ codes "!") Ending.closed

ping_bytes_u8 : All (λ b. b < 256) ping_input.bytes
unfolding encode header to_be
ping_bytes_u8 = omega arith

read_frame_sound_example :
    (ping_input.bytes ≡ encode ping ++ codes "!")
    × (Ending.closed ≡ Ending.closed)
    × (length ping.payload ≤ max_payload)
    × IsFrame ping
read_frame_sound_example =
    read_frame_sound ping_input (input (codes "!") Ending.closed) ping ping_bytes_u8
      (read_frame-encode ping (codes "!") Ending.closed ping-IsFrame (omega arith))

ten_bytes : 9 < length (encode ping)
unfolding encode header to_be
ten_bytes = omega arith

read_frame_cut_example :
    (read_frame (input (take 9 (encode ping)) Ending.closed)).0
    ≡ (if ltb 9 hdr_len then done none else failed early_eof)
read_frame_cut_example = read_frame_cut ping 9 ping-IsFrame (omega arith) ten_bytes

-- a shell's noise in front of the header
abbrev noisy : Input
noisy = input (codes "motd" ++ (0 ∷ ([] ++ (0 ∷ (expected ++ codes "SS"))))) Ending.closed

read_sync_header_sound_example :
    (junk between : Bytes) × Lacks 0 junk
    × Lacks 0 between
    × (noisy.bytes ≡ junk ++ (0 ∷ (between ++ (0 ∷ (expected ++ codes "SS")))))
    × (Ending.closed ≡ Ending.closed)
read_sync_header_sound_example =
    read_sync_header_sound noisy (input (codes "SS") Ending.closed)
      (read_sync_header_complete (codes "motd") [] (codes "SS") Ending.closed (omega arith) tt)

parse_connect-encode_connect_example :
    parse_connect (encode_connect 10 (codes "::1") 443)
    ≡ ok (record { family = some 10; host = codes "::1"; port = 443 })
parse_connect-encode_connect_example =
    parse_connect-encode_connect 10 (codes "::1") 443 (omega arith) (omega arith)
      (inl (omega arith), (inl (omega arith), (inl (omega arith), tt))) (omega arith)

parse_udp_data-encode_udp_data_example :
    parse_udp_data (encode_udp_data (codes "::1") 53 (codes "a,b"))
    ≡ ok (codes "::1", 53, codes "a,b")
parse_udp_data-encode_udp_data_example =
    parse_udp_data-encode_udp_data (codes "::1") 53 (codes "a,b")
      (inl (omega arith), (inl (omega arith), (inl (omega arith), tt))) (omega arith) (omega arith)
