-- ===== src/Router.antt =====
-- cmd/novakey/router.go: the route line, and where a connection is dispatched to.
pub mod Laws
use nova_key_daemon.Common.{
  ℕ, Bool, true, false, not, ◌&&◌, List, [], ◌∷◌, Option, none, some, if◌then◌else◌, ltb, ◌==◌,
  Bytes, codes, bytes_dec, ◌=?◌, length, take, Result, ok, err, map,
}
use nova_key_daemon.Common.Text.{Unicode, trim_space, has_prefix, trim_prefix, fields}

abbrev pub router_magic : Bytes
router_magic = codes "NOVAK/1"

abbrev pub router_max_hdr : ℕ
router_max_hdr = 1024

pub data RouteError : Type 0 where
  read_failed missing_preface line_too_long : RouteError

abbrev pub onto : ℕ → Option (Bytes × Bytes) → Option (Bytes × Bytes)
onto c none = none
onto c (some (line, rest)) = some (c ∷ line, rest)

-- `ReadString('\n')`: the line with its newline, and what follows it.
unfoldable pub read_string : Bytes → Option (Bytes × Bytes)
read_string [] = none
read_string (c ∷ s) = let rest = read_string s in if c == 10 then some (c ∷ [], s) else onto c rest

abbrev pub checked_line : Option (Bytes × Bytes) → Result RouteError (Bytes × Bytes)
checked_line none = err read_failed
checked_line (some (line, rest)) =
    if ltb router_max_hdr (length line) then err line_too_long else ok (line, rest)

-- Of what the peer sends until it closes the connection (`closed`) or a read fails; with the bytes
-- behind the line.
unfoldable pub read_route_line : Bytes → Bool → Result RouteError (Bytes × Bytes)
unfolding bytes_dec read_string
read_route_line sent closed =
    if ltb (length sent) 7 && not closed
    then err read_failed
    else if not (take 7 sent =? router_magic)
    then err missing_preface
    else checked_line (read_string sent)

abbrev pub first_field : List Bytes → Bytes
first_field [] = []
first_field (p ∷ ps) = p

unfoldable pub parse_route : Unicode → Bytes → Bytes
unfolding trim_space has_prefix trim_prefix fields bytes_dec
parse_route u line =
    let t = trim_space u line in
    let rest = trim_space u (trim_prefix t router_magic) in
    if not (has_prefix t router_magic)
    then []
    else if rest =? []
    then []
    else first_field (fields u rest)

-- The handler that a connection goes to, with the bytes that it reads; a rejected connection is
-- dropped without being closed.
pub data Dispatch : Type 0 where
  to_pair to_msg : Bytes → Dispatch
  rejected : Dispatch

abbrev pub dispatch : Unicode → Result RouteError (Bytes × Bytes) → Dispatch
dispatch u (err e) = rejected
dispatch u (ok (line, rest)) =
    if parse_route u line =? codes "/pair"
    then to_pair rest
    else if parse_route u line =? codes "/msg"
    then to_msg rest
    else rejected

unfoldable pub route_conn : Unicode → Bytes → Bool → Dispatch
unfolding read_route_line parse_route bytes_dec
route_conn u sent closed = dispatch u (read_route_line sent closed)
