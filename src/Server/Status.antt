-- ===== src/Server/Status.antt =====
-- A response that is committed, with the status that the metrics will show.
pub mod Ask
pub mod Serve
pub mod Answer
use opencost_ai.Prelude.{
  ◌≡◌, refl, ℕ, Bool, true, false, Option, none, some, List, [], ◌∷◌, is_nil, not, ap,
  if◌then◌else◌, arith,
}
use opencost_ai.Text.{Bytes, text}
use opencost_ai.Server.Writer.{
  Item, ResponseWriter, StatusWriter, commit, set_header, write_header, write, flush,
}
use opencost_ai.Server.Writer.Sync.{sent_status}
use opencost_ai.Api.{SseEvent}
use opencost_ai.Server.World.{Config, Request, UpstreamError}
use opencost_ai.Server.Problem.{
  write_problem, map_bridge_error, bridge_problem, write_json, problem_of, problem_title_for,
}
use opencost_ai.Server.Problem.Laws.{IsFresh, set_header-IsFresh, echo_id-IsFresh}
use opencost_ai.Server.Streaming.{write_sse, write_frames, open_stream}

pub record IsAnswered (s : StatusWriter) : Type 0 where
  pub committed : s.wrote_header ≡ true
  pub on_wire : sent_status s.inner ≡ some s.status

write_header-IsAnswered :
    (status : ℕ) (s : StatusWriter) → IsFresh s → IsAnswered (write_header status s)
unfolding write_header
write_header-IsAnswered status s (unwritten, unsent) = record {
  committed = ground arith;
  on_wire = ground arith;
}

pub write-IsAnswered : (i : Item) (s : StatusWriter) → IsAnswered s → IsAnswered (write i s)
unfolding write
write-IsAnswered i s h = record {
  committed = ground (arith, h.committed);
  on_wire = ground (arith, h.committed, h.on_wire);
}

flush-IsAnswered : (s : StatusWriter) → IsAnswered s → IsAnswered (flush s)
unfolding flush
flush-IsAnswered s h = record { committed = h.committed; on_wire = ground (arith, h.on_wire) }

pub branch-IsAnswered :
    (b : Bool) (s t : StatusWriter) → IsAnswered s → IsAnswered t → IsAnswered (if b then s else t)
branch-IsAnswered true s t h k = h
branch-IsAnswered false s t h k = k

-- A status and one item on a response that is not committed.
pub put-IsAnswered :
    (status : ℕ) (i : Item) (s : StatusWriter)
    → IsFresh s
    → IsAnswered (write i (write_header status s))
put-IsAnswered status i s fresh =
    write-IsAnswered i (write_header status s) (write_header-IsAnswered status s fresh)

pub write_problem-IsAnswered :
    (cfg : Config) (r : Request) (status : ℕ) (title detail : Bytes) (s : StatusWriter)
    → IsFresh s
    → IsAnswered (write_problem cfg r status title detail s)
unfolding write_problem set_header
write_problem-IsAnswered cfg r status title detail s fresh =
    branch-IsAnswered (not (cfg.encodes (Item.problem (problem_of r status title detail)))) _ _
      (put-IsAnswered 500 (Item.plain (text "internal error\n")) _ fresh)
      (put-IsAnswered status (Item.problem (problem_of r status title detail)) _
        (echo_id-IsFresh r.request_id _ fresh).0)

pub map_bridge_error-IsAnswered :
    (cfg : Config) (r : Request) (e : UpstreamError) (s : StatusWriter)
    → IsFresh s
    → IsAnswered (map_bridge_error cfg r e s)
unfolding map_bridge_error
map_bridge_error-IsAnswered cfg r e s fresh = write_problem-IsAnswered cfg r _ _ _ s fresh

pub write_json-IsAnswered :
    (cfg : Config) (r : Request) (status : ℕ) (i : Item) (s : StatusWriter)
    → IsFresh s
    → IsAnswered (write_json cfg r status i s)
unfolding write_json set_header
write_json-IsAnswered cfg r status i s fresh =
    branch-IsAnswered (not (cfg.encodes i)) _ _
      (write_problem-IsAnswered cfg r 500 (problem_title_for 500) (text "failed to encode response")
        s fresh)
      (put-IsAnswered status i _ fresh)

pub write_sse-IsAnswered :
    (cfg : Config) (e : SseEvent) (s : StatusWriter) → IsAnswered s → IsAnswered (write_sse cfg e s)
unfolding write_sse
write_sse-IsAnswered cfg e s h =
    branch-IsAnswered (cfg.encodes (Item.frame e)) _ _
      (flush-IsAnswered _ (write-IsAnswered (Item.frame e) s h)) (write-IsAnswered _ s h)

pub write_frames-IsAnswered :
    (cfg : Config) (es : List SseEvent) (s : StatusWriter)
    → IsAnswered s
    → IsAnswered (write_frames cfg es s)
unfolding write_frames
write_frames-IsAnswered cfg [] s h = h
write_frames-IsAnswered cfg (e ∷ es) s h =
    write_frames-IsAnswered cfg es (write_sse cfg e s) (write_sse-IsAnswered cfg e s h)

pub open_stream-IsAnswered : (s : StatusWriter) → IsFresh s → IsAnswered (open_stream s)
unfolding open_stream set_header
open_stream-IsAnswered s fresh = flush-IsAnswered _ (
    write_header-IsAnswered 200
      (set_header (text "X-Accel-Buffering") (text "no") (
        set_header (text "Connection") (text "keep-alive") (
          set_header (text "Cache-Control") (text "no-cache")
            (set_header (text "Content-Type") (text "text/event-stream") s))))
      fresh)
