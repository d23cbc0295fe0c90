-- ===== src/Store/Key/Space.antt =====
-- `internal/store/key.go`: the first byte of every key, its space.
use mailezine.Prelude.{ℕ}

abbrev pub meta : ℕ
meta = b'm'

abbrev pub account : ℕ
account = b'a'

abbrev pub index : ℕ
index = b'i'

abbrev pub document : ℕ
document = b'd'

abbrev pub log : ℕ
log = b'l'

abbrev pub blob_link : ℕ
blob_link = b'b'

abbrev pub queue : ℕ
queue = b'q'

abbrev pub quota : ℕ
quota = b'u'
