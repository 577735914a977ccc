-- ===== src/Handler/Actions.antt =====
-- What a list of actions holds: the texts injected and the texts copied.
use nova_key_daemon.Common.{List, [], ◌∷◌, Bytes}
use nova_key_daemon.Handler.{Action, try_set_clipboard, inject_password, reply}

abbrev pub injected : List Action → List Bytes
injected [] = []
injected (try_set_clipboard s ∷ rest) = injected rest
injected (inject_password s ∷ rest) = s ∷ injected rest
injected (reply r ∷ rest) = injected rest

-- The texts that `handleMsgConn` and its helpers give to `trySetClipboard`. The writes of the
-- clipboard that an injection makes by itself, as injectViaClipboardPaste of inject_darwin.go does,
-- are no actions of the handler.
abbrev pub copied : List Action → List Bytes
copied [] = []
copied (try_set_clipboard s ∷ rest) = s ∷ copied rest
copied (inject_password s ∷ rest) = copied rest
copied (reply r ∷ rest) = copied rest
