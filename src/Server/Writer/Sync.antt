-- ===== src/Server/Writer/Sync.antt =====
-- The status that the metrics label a request with is the one on the wire.
use opencost_ai.Prelude.{ℕ, ◌≡◌, true, false, Option, none, some, arith}
use opencost_ai.Text.{Bytes}
use opencost_ai.Server.Writer.{
  Item, ResponseWriter, StatusWriter, set_header, write_header, write, new_status_writer,
}

abbrev pub sent_status : ResponseWriter → Option ℕ
sent_status w = elim w.sent [ none ↦ none | some (code, _) ↦ some code ]

-- Once a header is written, its status is the one on the wire; before that, nothing is.
pub record IsSynced (s : StatusWriter) : Type 0 where
  pub written : s.wrote_header ≡ true → sent_status s.inner ≡ some s.status
  pub unwritten : s.wrote_header ≡ false → s.inner.sent ≡ none

new_status_writer-IsSynced : (w : ResponseWriter) → w.sent ≡ none → IsSynced (new_status_writer w)
unfolding new_status_writer
new_status_writer-IsSynced w h = ground arith

set_header-IsSynced :
    (name value : Bytes) (s : StatusWriter) → IsSynced s → IsSynced (set_header name value s)
unfolding set_header
set_header-IsSynced name value s h = record { written = h.written; unwritten = h.unwritten }

write_header-IsSynced : (code : ℕ) (s : StatusWriter) → IsSynced s → IsSynced (write_header code s)
unfolding write_header
write_header-IsSynced code s h = ground arith

write-IsSynced : (i : Item) (s : StatusWriter) → IsSynced s → IsSynced (write i s)
unfolding write
write-IsSynced i s h = ground arith
