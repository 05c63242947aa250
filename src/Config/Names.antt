-- ===== src/Config/Names.antt =====
-- `valid_timezone` and `valid_hostname` of src/config.rs.
use macmapd.Base.{Bool, ◌&&◌, ◌||◌, not, Bytes, length, is_empty, all, any, ascii, leb, ◌==◌}
use macmapd.Text.{is_ascii_alphanumeric, split, starts_with_char, ends_with_char, without_suffix}
use macmapd.Text.Utf8.{chars, is_control}

unfoldable pub default_timezone : Bytes
default_timezone = ascii "Etc/UTC"

unfoldable pub valid_timezone : Bytes → Bool
unfolding is_ascii_alphanumeric split chars is_control
valid_timezone value =
    not (is_empty value)
    && leb (length value) 255
    && not (any is_control (chars value))
    && all
        (λ part.
          not (is_empty part)
          && all (λ c. is_ascii_alphanumeric c || c == b'_' || c == b'-' || c == b'+') part)
        (split b'/' value)

-- One label of a host name.
unfoldable pub valid_label : Bytes → Bool
unfolding is_ascii_alphanumeric starts_with_char ends_with_char
valid_label label =
    not (is_empty label)
    && leb (length label) 63
    && not (starts_with_char b'-' label)
    && not (ends_with_char b'-' label)
    && all (λ c. is_ascii_alphanumeric c || c == b'-') label

unfoldable pub valid_hostname : Bytes → Bool
unfolding valid_label split without_suffix
valid_hostname full =
    let name = without_suffix b'.' full in
    not (is_empty name) && leb (length name) 253 && all valid_label (split b'.' name)
