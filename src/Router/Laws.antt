-- ===== src/Router/Laws.antt =====
-- What the client writes first is what the router takes.
use nova_key_daemon.Common.{◌≡◌, refl, Bool, ◌++◌, arith, Bytes, codes, ok, ◌∙◌, ap, bytes_dec}
use nova_key_daemon.Common.Text.{Unicode}
use nova_key_daemon.Router.{read_route_line, parse_route, to_msg, dispatch, route_conn}

-- `routeLineMsg` of cmd/nvclient/main.go.
abbrev pub route_line_msg : Bytes
route_line_msg = codes "NOVAK/1 /msg\n"

line_read :
    (rest : Bytes) (closed : Bool)
    → read_route_line (route_line_msg ++ rest) closed ≡ ok (route_line_msg, rest)
unfolding read_route_line bytes_dec
line_read rest closed = ground arith

line_parsed : (u : Unicode) → parse_route u route_line_msg ≡ codes "/msg"
unfolding parse_route
line_parsed u = refl

dispatched : (u : Unicode) (rest : Bytes) → dispatch u (ok (route_line_msg, rest)) ≡ to_msg rest
unfolding parse_route bytes_dec
dispatched u rest = refl

-- A connection that begins with the client's route line goes to the message handler, which reads
-- exactly what the client wrote behind it.
pub route_conn-route_line_msg :
    (u : Unicode) (rest : Bytes) (closed : Bool)
    → route_conn u (route_line_msg ++ rest) closed ≡ to_msg rest
unfolding route_conn
route_conn-route_line_msg u rest closed =
    ap (dispatch u) (line_read rest closed) ∙ dispatched u rest
