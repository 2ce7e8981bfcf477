-- ===== src/Client/Tester/Prints.antt =====
-- The tester prints each report, in order, and ends at the end of the pipe.
use diald_top.Base.{ℕ, ◌≡◌, refl, false, some, List, [], ◌∷◌, ◌++◌, codes, decimal}
use diald_top.Client.Printf.{print, format_step, convert, print_int, sprintf}
use diald_top.Client.Printf.Fields.{pad_plain}
use diald_top.Client.Tester.{
  RawPacket, RawStatus, RawReport, status, load, interface, state, message, queue, print_packet,
  print_packets, print_report,
}

-- The lines of a report.
abbrev pub packet_line : RawPacket → List ℕ
packet_line p =
    codes "Packet: Protocol = "
    ++ (p.protocol
        ++ (codes "; From = "
            ++ (p.ip1
                ++ (codes "/"
                    ++ (decimal p.port1
                        ++ (codes "; To = "
                            ++ (p.ip2
                                ++ (codes "/"
                                    ++ (decimal p.port2
                                        ++ (codes "; TTL = " ++ (p.ttl ++ codes "\n")))))))))))

abbrev pub packet_lines : List RawPacket → List ℕ
packet_lines [] = []
packet_lines (p ∷ ps) = packet_line p ++ packet_lines ps

abbrev pub status_lines : RawStatus → List ℕ
status_lines s =
    codes "Status:  up = "
    ++ (decimal s.up
        ++ (codes "; force = "
            ++ (decimal s.force
                ++ (codes "; im = "
                    ++ (decimal s.im
                        ++ (codes "; im_itm = "
                            ++ (decimal s.im_itm
                                ++ (codes "; im_tm = "
                                    ++ (decimal s.im_tm
                                        ++ (codes ";\n\tim_fuzz = "
                                            ++ (decimal s.im_fuzz
                                                ++ (codes "; im_to = "
                                                    ++ (s.im_to
                                                        ++ (codes "; force_to = "
                                                            ++ (s.force_to
                                                            ++ (codes "; to = "
                                                            ++ (s.to ++ codes "\n")))))))))))))))))

abbrev pub lines_of : RawReport → List ℕ
lines_of (status s) = status_lines s
lines_of (load itxtotal irxtotal) =
    codes "Load: Tx = "
    ++ (decimal itxtotal ++ (codes "; Rx = " ++ (decimal irxtotal ++ codes "\n")))
lines_of (interface name local_ip remote_ip) =
    codes "Interface: IF = "
    ++ (name
        ++ (codes "; Local IP = "
            ++ (local_ip ++ (codes "; Remote IP = " ++ (remote_ip ++ codes "\n")))))
lines_of (state t) = codes "State:  " ++ (t ++ codes "\n")
lines_of (message t) = codes "Message:  " ++ (t ++ codes "\n")
lines_of (queue ps) = codes "Start Queue\n" ++ (packet_lines ps ++ codes "End Queue\n")

print_packet-line : (p : RawPacket) → print_packet p ≡ some (packet_line p)
unfolding print_packet sprintf print format_step convert print_int
print_packet-line p =
    rw
      (
        pad_plain false p.protocol,
        pad_plain false p.ip1,
        pad_plain false p.ip2,
        pad_plain false p.ttl,
      )
      refl

print_packets-lines : (ps : List RawPacket) → print_packets ps ≡ some (packet_lines ps)
unfolding print_packets
print_packets-lines [] = refl
print_packets-lines (p ∷ ps) = rw (print_packet-line p, print_packets-lines ps) refl

pub print_report-lines : (r : RawReport) → print_report r ≡ some (lines_of r)
unfolding print_report sprintf print format_step convert print_int
print_report-lines (status s) =
    rw (pad_plain false s.im_to, pad_plain false s.force_to, pad_plain false s.to) refl
print_report-lines (load itxtotal irxtotal) = refl
print_report-lines (interface name local_ip remote_ip) =
    rw (pad_plain false name, pad_plain false local_ip, pad_plain false remote_ip) refl
print_report-lines (state t) = rw (pad_plain false t) refl
print_report-lines (message t) = rw (pad_plain false t) refl
print_report-lines (queue ps) = rw (print_packets-lines ps) refl
