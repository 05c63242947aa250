-- ===== src/Net/Display.antt =====
-- `Ipv4Addr::to_string`.
use macmapd.Base.{◌++◌, ◌∷◌, Bytes}
use macmapd.Text.Decimal.{decimal}
use macmapd.Net.{Ipv4Addr}

unfoldable pub display : Ipv4Addr → Bytes
unfolding decimal
display ip =
    decimal ip.a ++ (b'.' ∷ (decimal ip.b ++ (b'.' ∷ (decimal ip.c ++ (b'.' ∷ decimal ip.d)))))
