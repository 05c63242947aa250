-- ===== src/Tests/Log.antt =====
-- The theorems on the packet log of src/dhcp.rs, at concrete bytes.
use macmapd.Base.{◌≡◌, [], ◌∷◌, Bytes, ascii, arith, ok}
use macmapd.Base.Yields.{Yields}
use macmapd.Dhcp.Options.Fields.{Fields}
use macmapd.Dhcp.Dump.Values.{relay_information}
use macmapd.Dhcp.Dump.Packet.{dhcp_packet_dump}
use macmapd.Dhcp.Dump.Safe.Whole.{IsLog, dhcp_packet_dump-IsLog}
use macmapd.Dhcp.Dump.Area.{IsShown, options_text-IsShown}
use macmapd.Dhcp.Dump.Shown.{
  IsWritten, option_value-IsWritten, encode_suboptions, suboption_lines,
  relay_information-encode_suboptions,
}
use macmapd.Tests.Samples.{server_ip, client_ip}
use macmapd.Tests.Wire.{datagram}

dhcp_packet_dump-IsLog_example : Yields IsLog (dhcp_packet_dump datagram)
dhcp_packet_dump-IsLog_example = dhcp_packet_dump-IsLog datagram

-- A message, padding, and a host name with a line break that is cut off.
abbrev cut_area : Bytes
cut_area = 53 ∷ 1 ∷ 3 ∷ 0 ∷ 12 ∷ 5 ∷ b'a' ∷ 10 ∷ []

options_text-IsShown_example : IsShown cut_area
options_text-IsShown_example = options_text-IsShown cut_area

option_value-IsWritten_example : IsWritten server_ip (client_ip ∷ []) 3600 1500
option_value-IsWritten_example =
    option_value-IsWritten server_ip (client_ip ∷ []) 3600 1500 (omega arith) (omega arith)

abbrev circuit : Fields
circuit = (1, ascii "lan") ∷ (2, []) ∷ []

relay_information-encode_suboptions_example :
    relay_information (encode_suboptions circuit) ≡ ok (suboption_lines circuit)
relay_information-encode_suboptions_example = relay_information-encode_suboptions circuit
