-- ===== src/Tests/LogFileTests.antt =====
-- A log that is rotated beside another file.
use nova_key_daemon.Common.{◌≡◌, refl, true, [], ◌∷◌, none, some, bytes_dec, codes}
use nova_key_daemon.Common.Dict.{lookup}
use nova_key_daemon.LogFile.{LogEntry, RotatingFileWriter, LogHost, LogState, write}
use nova_key_daemon.LogFile.Writes.{write-lookup}

abbrev writer : RotatingFileWriter
writer = record { base = codes "n.log"; max_bytes = 10; keep_files = 1 }

abbrev log_host : LogHost
log_host = record {
  opens = true;
  stats = true;
  renames = true;
  lists = true;
  removes = λ n. true;
  stamp = codes "2";
  now = 7;
}

abbrev old : LogEntry
old = record { size = 8; changed = 3 }

abbrev directory : LogState
directory = record {
  entries =
      (codes "n.log", old)
      ∷ (codes "n.log.1", record { size = 8; changed = 1 })
      ∷ (codes "keys.json", old)
      ∷ [];
  is_open = true;
}

write-lookup_example :
    lookup (codes "keys.json") (write writer log_host 5 directory).1.entries ≡ some old
unfolding lookup bytes_dec
write-lookup_example =
    write-lookup writer log_host (codes "keys.json") (λ e. cc) (λ t e. cc) 5 directory

-- The older of the two rotated logs goes.
rotated_away : lookup (codes "n.log.1") (write writer log_host 5 directory).1.entries ≡ none
unfolding write lookup bytes_dec
rotated_away = refl
