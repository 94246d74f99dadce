-- ===== src/Server/Streaming/Frames.antt =====
-- Frames on a response that is committed with status 200.
use opencost_ai.Prelude.{
  ◌≡◌, sym, ap, ◌∙◌, true, List, [], ◌∷◌, ◌++◌, append-nil, append_assoc, map, some, arith,
}
use mathlib.Core.List.{map-append}
use opencost_ai.Text.{text}
use opencost_ai.Api.{SseEvent}
use opencost_ai.Server.Writer.{Item, StatusWriter, set_header, write_header, write, flush}
use opencost_ai.Server.Writer.Sync.{sent_status}
use opencost_ai.Server.World.{Config}
use opencost_ai.Server.Problem.Laws.{IsFresh}
use opencost_ai.Server.Streaming.{write_sse, write_frames, open_stream}

pub record IsOpen (s : StatusWriter) : Type 0 where
  pub committed : s.wrote_header ≡ true
  pub on_wire : sent_status s.inner ≡ some 200
  pub labelled : s.status ≡ 200

-- Every frame can be encoded.
abbrev pub Encodes : Config → Type 0
Encodes cfg = (e : SseEvent) → cfg.encodes (Item.frame e) ≡ true

-- The response went on with these items, and is open.
abbrev pub Wrote : List Item → StatusWriter → StatusWriter → Type 0
Wrote items s s' = IsOpen s' × (s'.inner.items ≡ s.inner.items ++ items)

flush-IsOpen :
    (s : StatusWriter) → IsOpen s → IsOpen (flush s) × ((flush s).inner.items ≡ s.inner.items)
unfolding flush
flush-IsOpen s h = (
  record { committed = h.committed; on_wire = ground arith; labelled = h.labelled },
  ground arith,
)

write_header-IsOpen :
    (s : StatusWriter)
    → IsFresh s
    → IsOpen (write_header 200 s) × ((write_header 200 s).inner.items ≡ s.inner.items)
unfolding write_header
write_header-IsOpen s (unwritten, unsent) = (
  record { committed = ground arith; on_wire = ground arith; labelled = ground arith },
  ground arith,
)

write-Wrote : (i : Item) (s : StatusWriter) → IsOpen s → Wrote (i ∷ []) s (write i s)
unfolding write
write-Wrote i s h = (
  record {
    committed = ground (arith, h.committed);
    on_wire = ground (arith, h.committed, h.on_wire);
    labelled = ground (arith, h.committed, h.labelled);
  },
  ground (arith, h.committed, h.on_wire),
)

pub open_stream-IsOpen :
    (s : StatusWriter)
    → IsFresh s
    → IsOpen (open_stream s) × ((open_stream s).inner.items ≡ s.inner.items)
unfolding open_stream set_header
open_stream-IsOpen s fresh =
    let (h, same) =
      write_header-IsOpen
        (set_header (text "X-Accel-Buffering") (text "no") (
          set_header (text "Connection") (text "keep-alive") (
            set_header (text "Cache-Control") (text "no-cache")
              (set_header (text "Content-Type") (text "text/event-stream") s))))
        fresh in
    let (h', same') = flush-IsOpen _ h in (h', same' ∙ same)

pub write_sse-Wrote :
    (cfg : Config) (e : SseEvent) (s : StatusWriter)
    → Encodes cfg
    → IsOpen s
    → Wrote (Item.frame e ∷ []) s (write_sse cfg e s)
unfolding write_sse
write_sse-Wrote cfg e s encodes h =
    let (k, added) = write-Wrote (Item.frame e) s h in
    let (k', same) = flush-IsOpen (write (Item.frame e) s) k in rw (encodes e) (k', same ∙ added)

pub Wrote-join :
    (es fs : List SseEvent) (s s' s'' : StatusWriter)
    → Wrote (map Item.frame es) s s'
    → Wrote (map Item.frame fs) s' s''
    → Wrote (map Item.frame (es ++ fs)) s s''
Wrote-join es fs s s' s'' (h, a) (k, b) = (
  k,
  b
      ∙ ap (λ i. i ++ map Item.frame fs) a
      ∙ append_assoc s.inner.items (map Item.frame es) (map Item.frame fs)
      ∙ ap (λ i. s.inner.items ++ i) (sym (map-append Item.frame es fs)),
)

pub write_frames-Wrote :
    (cfg : Config) (es : List SseEvent) (s : StatusWriter)
    → Encodes cfg
    → IsOpen s
    → Wrote (map Item.frame es) s (write_frames cfg es s)
unfolding write_frames
write_frames-Wrote cfg [] s encodes h = (h, sym (append-nil s.inner.items))
write_frames-Wrote cfg (e ∷ es) s encodes h =
    let first = write_sse-Wrote cfg e s encodes h in
    Wrote-join (e ∷ []) es s (write_sse cfg e s) _ first
      (write_frames-Wrote cfg es (write_sse cfg e s) encodes first.0)
