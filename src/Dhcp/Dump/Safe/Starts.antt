-- ===== src/Dhcp/Dump/Safe/Starts.antt =====
-- How the lines of the packet log of src/dhcp.rs start: with a text of the program, never with bytes
-- of a packet.
use mathlib.Core.Path.{subst}
use macmapd.Base.{ℕ, ◌≡◌, refl, ap, ◌∙◌, [], ◌++◌, Bytes, ascii, append_assoc, append-nil, ◌==◌}
use macmapd.Dhcp.Dump.Values.{option_name, suboption_name}
use macmapd.Dhcp.Dump.Safe.{IsLine, IsLine-append, IsLine-if, literal, lead}
use macmapd.Dhcp.Dump.Safe.Values.{option_name-IsLine}

-- The names of the header's fields.
pub data IsName : Bytes → Type 0 where
  client_ip : IsName (ascii "Client-IP")
  your_ip : IsName (ascii "Your-IP")
  server_ip : IsName (ascii "Server-IP")
  gateway_ip : IsName (ascii "Gateway-IP")
  client_ethernet_address : IsName (ascii "Client-Ethernet-Address")
  server_name : IsName (ascii "Server-Name")
  bootfile_name : IsName (ascii "Bootfile-Name")

-- The starts of lines. What is not literal in them is the name of an option of RFC 2132, from the
-- program's own table.
pub data IsStart : Bytes → Type 0 where
  title : IsStart (ascii "BOOTP/DHCP, ")
  too_short : IsStart (ascii "Malformed BOOTP/DHCP payload, length ")
  field : (name : Bytes) → IsName name → IsStart (ascii "  " ++ name)
  no_cookie : IsStart (ascii "  No RFC1048 magic cookie")
  vendor : IsStart (ascii "  Vendor-rfc1048 Extensions")
  cookie : IsStart (ascii "    Magic Cookie 0x63825363")
  option : (code : ℕ) → IsStart (ascii "    " ++ (option_name code ++ ascii " Option "))
  malformed_option : IsStart (ascii "    Malformed Option ")
  suboption : (code : ℕ) → IsStart (ascii "      " ++ (suboption_name code ++ ascii " SubOption "))
  malformed_suboption : IsStart (ascii "Malformed relay suboption ")

-- One line of visible text that the program starts.
pub record IsStarted (text : Bytes) : Type 0 where
  pub start : Bytes
  pub rest : Bytes
  pub known : IsStart start
  pub shown : start ++ rest ≡ text
  pub clean : IsLine text

IsName-IsLine : (name : Bytes) → IsName name → IsLine name
IsName-IsLine _ client_ip = literal _ refl
IsName-IsLine _ your_ip = literal _ refl
IsName-IsLine _ server_ip = literal _ refl
IsName-IsLine _ gateway_ip = literal _ refl
IsName-IsLine _ client_ethernet_address = literal _ refl
IsName-IsLine _ server_name = literal _ refl
IsName-IsLine _ bootfile_name = literal _ refl

suboption_name-IsLine : (code : ℕ) → IsLine (suboption_name code)
unfolding suboption_name
suboption_name-IsLine code =
    IsLine-if (code == 1) (literal (ascii "Circuit-ID") refl)
      (IsLine-if (code == 2) (literal (ascii "Remote-ID") refl) (literal (ascii "SubOption") refl))

IsStart-IsLine : (start : Bytes) → IsStart start → IsLine start
IsStart-IsLine _ title = literal _ refl
IsStart-IsLine _ too_short = literal _ refl
IsStart-IsLine _ (field name n) = lead (ascii "  ") refl (IsName-IsLine name n)
IsStart-IsLine _ no_cookie = literal _ refl
IsStart-IsLine _ vendor = literal _ refl
IsStart-IsLine _ cookie = literal _ refl
IsStart-IsLine _ (option code) =
    lead (ascii "    ") refl
      (IsLine-append (option_name-IsLine code) (literal (ascii " Option ") refl))
IsStart-IsLine _ malformed_option = literal _ refl
IsStart-IsLine _ (suboption code) =
    lead (ascii "      ") refl
      (IsLine-append (suboption_name-IsLine code) (literal (ascii " SubOption ") refl))
IsStart-IsLine _ malformed_suboption = literal _ refl

pub started : {start rest : Bytes} → IsStart start → IsLine rest → IsStarted (start ++ rest)
started {start} {rest} known h = record {
  start = start;
  rest = rest;
  known = known;
  shown = refl;
  clean = IsLine-append (IsStart-IsLine start known) h;
}

pub alone : {start : Bytes} → IsStart start → IsStarted start
alone {start} known = record {
  start = start;
  rest = [];
  known = known;
  shown = append-nil start;
  clean = IsStart-IsLine start known;
}

moved : {text other : Bytes} → text ≡ other → IsStarted text → IsStarted other
moved e s = subst IsStarted e s

pub IsStarted-field :
    (name : Bytes) {rest : Bytes}
    → IsName name
    → IsLine rest
    → IsStarted (ascii "  " ++ (name ++ rest))
IsStarted-field name {rest} n h =
    moved (append_assoc (ascii "  ") name rest) (started (field name n) h)

pub IsStarted-named :
    (before name behind : Bytes) {rest : Bytes}
    → IsStart (before ++ (name ++ behind))
    → IsLine rest
    → IsStarted (before ++ (name ++ (behind ++ rest)))
IsStarted-named before name behind {rest} known h =
    moved
      (append_assoc before (name ++ behind) rest
        ∙ ap (λ (t : Bytes). before ++ t) (append_assoc name behind rest))
      (started known h)
