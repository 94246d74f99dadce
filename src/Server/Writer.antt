-- ===== src/Server/Writer.antt =====
-- The response: net/http's ResponseWriter, and `statusWriter` of internal/server/middleware.go
-- around it. What is written is kept as the value that is encoded.
pub mod Sync
use opencost_ai.Prelude.{
  ℕ, Bool, true, false, List, [], ◌∷◌, ◌++◌, Option, none, some, if◌then◌else◌,
}
use opencost_ai.Text.{Bytes}
use opencost_ai.Text.Dict.{Dict, insert}
use opencost_ai.Api.{Problem, AskResponse, ModelsResponse, ToolsResponse, SseEvent, HealthResponse}

-- A JSON document, a plain text, or one SSE frame.
pub data Item : Type 0 where
  problem : Problem → Item
  answer : AskResponse → Item
  models : ModelsResponse → Item
  tools : ToolsResponse → Item
  health : HealthResponse → Item
  plain : Bytes → Item
  frame : SseEvent → Item

-- `sent` is the status line and the headers as they were when the response was committed.
pub record ResponseWriter : Type 0 where
  pub header : Dict Bytes
  pub sent : Option (ℕ × Dict Bytes)
  pub items : List Item

-- `http.ResponseWriter` of the server: a second WriteHeader does nothing.
abbrev pub commit : ℕ → ResponseWriter → ResponseWriter
commit code w = elim w.sent [ none ↦ record w { sent = some (code, w.header) } | some _ ↦ w ]

pub record StatusWriter : Type 0 where
  pub inner : ResponseWriter
  pub status : ℕ
  pub wrote_header : Bool

-- `w.Header().Set`
unfoldable pub set_header : Bytes → Bytes → StatusWriter → StatusWriter
set_header name value s =
    let w = s.inner in record s { inner = record w { header = insert name value w.header } }

unfoldable pub write_header : ℕ → StatusWriter → StatusWriter
write_header code s =
    if s.wrote_header
    then s
    else record { inner = commit code s.inner; status = code; wrote_header = true }

abbrev put_item : Item → StatusWriter → StatusWriter
put_item i s =
    let w = commit 200 s.inner in record s { inner = record w { items = w.items ++ i ∷ [] } }

-- `Write`; net/http sends status 200 at the first write without a status.
unfoldable pub write : Item → StatusWriter → StatusWriter
unfolding write_header
write i s = put_item i (if s.wrote_header then s else write_header 200 s)

-- `Flush` goes to the wrapped writer, which sends status 200 if none was sent.
unfoldable pub flush : StatusWriter → StatusWriter
flush s = record s { inner = commit 200 s.inner }

-- The `statusWriter` that `metricsMiddleware` makes.
unfoldable pub new_status_writer : ResponseWriter → StatusWriter
new_status_writer w = record { inner = w; status = 200; wrote_header = false }
