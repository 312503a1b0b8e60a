-- ===== src/Normalize/Port.antt =====
-- splitHostPort and normalizePort of internal/normalize/url.go.
use api_integrity_tool.Base.{
  upto_last, before_last, Bool, ◌&&◌, ◌||◌, List, if◌then◌else◌, ◌==◌, any, Str, codes, str_eq,
  has_prefix, after_last, drop_first, ℤ, pos, int_eq, read_int,
}
use api_integrity_tool.Normalize.Path.{append_flag}

unfoldable pub port_of : Str → ℤ
unfolding read_int has_prefix
port_of rest = if has_prefix rest (codes ":") then (read_int (drop_first rest)).0 else pos 0

-- The host and the port of a host that is no address in brackets.
unfoldable pub split_last_colon : Str → Str × ℤ
unfolding read_int after_last before_last
split_last_colon h =
    let port = read_int (after_last (λ c. c == b':') h) in
    if any (λ c. c == b':') h && port.1 then (before_last b':' h, port.0) else (h, pos 0)

-- splitHostPort
unfoldable pub split_host_port : Str → Str × ℤ
unfolding has_prefix upto_last port_of after_last split_last_colon
split_host_port h =
    if has_prefix h (codes "[") && any (λ c. c == b']') h
    then (upto_last b']' h, port_of (after_last (λ c. c == b']') h))
    else split_last_colon h

unfoldable pub is_default_port : Str → ℤ → Bool
unfolding str_eq int_eq
is_default_port scheme port =
    str_eq scheme (codes "http") && int_eq port (pos 80)
    || (str_eq scheme (codes "https") && int_eq port (pos 443)
        || (str_eq scheme (codes "ws") && int_eq port (pos 80)
            || str_eq scheme (codes "wss") && int_eq port (pos 443)))

-- normalizePort: the port and the flags
unfoldable pub normalize_port : Str → ℤ → List Str → ℤ × List Str
unfolding is_default_port append_flag int_eq
normalize_port scheme port flags =
    if int_eq port (pos 0)
    then (pos 0, flags)
    else if is_default_port scheme port
    then (pos 0, append_flag flags (codes "default_port_stripped"))
    else (port, flags)
