-- ===== src/Server/Correlated.antt =====
-- The X-Request-ID header of a response, through the writers of internal/server/problem.go, of
-- internal/server/stream.go and of internal/auth/middleware.go.
pub mod Ask
pub mod Serve
use opencost_ai.Prelude.{
  ℕ, ◌≡◌, refl, ◌∙◌, Bool, true, false, not, List, [], ◌∷◌, ◌++◌, Option, none, some, inl, inr,
  Bool-cases, if◌then◌else◌, ◌==◌, is_nil,
}
use opencost_ai.Text.{Bytes, text, beq}
use opencost_ai.Text.Laws.{beq_refl}
use opencost_ai.Text.Dict.{Dict, lookup, insert, lookup-insert}
use opencost_ai.Api.{SseEvent}
use opencost_ai.Server.Writer.{
  Item, ResponseWriter, StatusWriter, commit, set_header, write_header, write, flush,
}
use opencost_ai.Server.World.{Config, Request, UpstreamError}
use opencost_ai.Server.Problem.{
  header_name, problem_content_type, problem_of, problem_title_for, echo_id, write_problem,
  bridge_problem, map_bridge_error, write_json,
}
use opencost_ai.Server.Streaming.{event_type, write_sse, write_frames, open_stream}
use opencost_ai.Server.Routes.{auth_problem}

-- Headers with the request's ID.
abbrev pub HasId : Bytes → Dict Bytes → Type 0
HasId id headers = lookup header_name headers ≡ some id

-- What was sent, if anything was, has the request's ID.
abbrev pub SentWithId : Bytes → Option (ℕ × Dict Bytes) → Type 0
SentWithId id none = Unit
SentWithId id (some (status, headers)) = HasId id headers

pub record IsEchoed (id : Bytes) (s : StatusWriter) : Type 0 where
  pub set : HasId id s.inner.header
  pub sent : SentWithId id s.inner.sent

branch-IsEchoed :
    (id : Bytes) (b : Bool) (s t : StatusWriter)
    → IsEchoed id s
    → IsEchoed id t
    → IsEchoed id (if b then s else t)
branch-IsEchoed id true s t h k = h
branch-IsEchoed id false s t h k = k

commit-SentWithId :
    (id : Bytes) (code : ℕ) (header : Dict Bytes) (sent : Option (ℕ × Dict Bytes))
    (items : List Item)
    → HasId id header
    → SentWithId id sent
    → let w = commit code (record { header = header; sent = sent; items = items }) in
      HasId id w.header × SentWithId id w.sent
commit-SentWithId id code header none items h k = (h, h)
commit-SentWithId id code header (some (c, sent)) items h k = (h, k)

module _ (id : Bytes) (s : StatusWriter) (h : IsEchoed id s) where
  -- A header of another name
  set_header-IsEchoed :
      (name value : Bytes) → beq name header_name ≡ false → IsEchoed id (set_header name value s)
  unfolding set_header
  set_header-IsEchoed name value other = record {
    set = rw (lookup-insert name header_name value s.inner.header, other) h.set;
    sent = h.sent;
  }

  committed :
      (code : ℕ) → HasId id (commit code s.inner).header × SentWithId id (commit code s.inner).sent
  committed code = commit-SentWithId id code s.inner.header s.inner.sent s.inner.items h.set h.sent

  write_header-IsEchoed : (code : ℕ) → IsEchoed id (write_header code s)
  unfolding write_header
  write_header-IsEchoed code =
      branch-IsEchoed id s.wrote_header _ _ h
        (record { set = (committed code).0; sent = (committed code).1 })

  flush-IsEchoed : IsEchoed id (flush s)
  unfolding flush
  flush-IsEchoed = record { set = (committed 200).0; sent = (committed 200).1 }

-- The request's ID itself
pub set_id-IsEchoed :
    (id : Bytes) (s : StatusWriter)
    → SentWithId id s.inner.sent
    → IsEchoed id (set_header header_name id s)
unfolding set_header
set_id-IsEchoed id s k = record {
  set = rw (lookup-insert header_name header_name id s.inner.header, beq_refl header_name) refl;
  sent = k;
}

echo_id-IsEchoed : (id : Bytes) (s : StatusWriter) → IsEchoed id s → IsEchoed id (echo_id id s)
echo_id-IsEchoed id s h = branch-IsEchoed id (is_nil id) _ _ h (set_id-IsEchoed id s h.sent)

write-IsEchoed :
    (id : Bytes) (i : Item) (s : StatusWriter) → IsEchoed id s → IsEchoed id (write i s)
unfolding write
write-IsEchoed id i s h =
    let t = if s.wrote_header then s else write_header 200 s in
    let (set, sent) =
      committed id t (branch-IsEchoed id s.wrote_header _ _ h (write_header-IsEchoed id s h 200))
        200 in
    record { set = set; sent = sent }

-- A document with a status and a content type
put-IsEchoed :
    (id : Bytes) (status : ℕ) (i : Item) (s : StatusWriter)
    → IsEchoed id s
    → IsEchoed id (write i (write_header status s))
put-IsEchoed id status i s h = write-IsEchoed id i _ (write_header-IsEchoed id s h status)

typed-IsEchoed :
    (id kind : Bytes) (s : StatusWriter)
    → IsEchoed id s
    → IsEchoed id (set_header (text "Content-Type") kind s)
unfolding text beq
typed-IsEchoed id kind s h = set_header-IsEchoed id s h (text "Content-Type") kind refl

module _ (cfg : Config) (r : Request) where
  pub write_problem-IsEchoed :
      (status : ℕ) (title detail : Bytes) (s : StatusWriter)
      → IsEchoed r.request_id s
      → IsEchoed r.request_id (write_problem cfg r status title detail s)
  unfolding write_problem
  write_problem-IsEchoed status title detail s h =
      branch-IsEchoed r.request_id
        (not (cfg.encodes (Item.problem (problem_of r status title detail)))) _ _
        (put-IsEchoed r.request_id 500 _ _ (typed-IsEchoed r.request_id _ s h))
        (put-IsEchoed r.request_id status _ _
          (echo_id-IsEchoed r.request_id _ (typed-IsEchoed r.request_id problem_content_type s h)))

  pub map_bridge_error-IsEchoed :
      (e : UpstreamError) (s : StatusWriter)
      → IsEchoed r.request_id s
      → IsEchoed r.request_id (map_bridge_error cfg r e s)
  unfolding map_bridge_error
  map_bridge_error-IsEchoed e s h = write_problem-IsEchoed (bridge_problem e).0 _ _ s h

  pub write_json-IsEchoed :
      (status : ℕ) (i : Item) (s : StatusWriter)
      → IsEchoed r.request_id s
      → IsEchoed r.request_id (write_json cfg r status i s)
  unfolding write_json
  write_json-IsEchoed status i s h =
      branch-IsEchoed r.request_id (not (cfg.encodes i)) _ _ (write_problem-IsEchoed 500 _ _ s h)
        (put-IsEchoed r.request_id status i _ (typed-IsEchoed r.request_id _ s h))

module _ (cfg : Config) (id : Bytes) where
  pub write_sse-IsEchoed :
      (e : SseEvent) (s : StatusWriter) → IsEchoed id s → IsEchoed id (write_sse cfg e s)
  unfolding write_sse
  write_sse-IsEchoed e s h =
      branch-IsEchoed id (cfg.encodes (Item.frame e)) _ _
        (flush-IsEchoed id _ (write-IsEchoed id (Item.frame e) s h)) (write-IsEchoed id _ s h)

  pub write_frames-IsEchoed :
      (es : List SseEvent) (s : StatusWriter) → IsEchoed id s → IsEchoed id (write_frames cfg es s)
  unfolding write_frames
  write_frames-IsEchoed [] s h = h
  write_frames-IsEchoed (e ∷ es) s h =
      write_frames-IsEchoed es (write_sse cfg e s) (write_sse-IsEchoed e s h)

pub open_stream-IsEchoed :
    (id : Bytes) (s : StatusWriter) → IsEchoed id s → IsEchoed id (open_stream s)
unfolding open_stream text beq
open_stream-IsEchoed id s h = flush-IsEchoed id _ (
    write_header-IsEchoed id _
      (set_header-IsEchoed id _
        (set_header-IsEchoed id _
          (set_header-IsEchoed id _ (typed-IsEchoed id (text "text/event-stream") s h)
            (text "Cache-Control") (text "no-cache") refl)
          (text "Connection") (text "keep-alive") refl)
        (text "X-Accel-Buffering") (text "no") refl)
      200)

pub auth_problem-IsEchoed :
    (r : Request) (status : ℕ) (title detail : Bytes) (s : StatusWriter)
    → IsEchoed r.request_id s
    → IsEchoed r.request_id (auth_problem r status title detail s)
unfolding auth_problem text beq
auth_problem-IsEchoed r status title detail s h =
    let typed = typed-IsEchoed r.request_id problem_content_type s h in
    let echoed =
      branch-IsEchoed r.request_id (not (is_nil r.request_id)) _ _
        (set_id-IsEchoed r.request_id _ typed.sent) typed in
    put-IsEchoed r.request_id status _ _ (
      branch-IsEchoed r.request_id (status == 401) _ _
        (set_header-IsEchoed r.request_id _ echoed (text "WWW-Authenticate") _ refl) echoed)
