-- ===== src/Server/Problem/Laws.antt =====
-- Problem documents on the wire.
use opencost_ai.Prelude.{
  Bool, true, false, if◌then◌else◌, ℕ, ◌≡◌, refl, List, [], ◌∷◌, ◌++◌, none, some, arith, ◌⊎◌, ◌∙◌,
}
use opencost_ai.Text.{Bytes, text}
use opencost_ai.Server.Writer.{Item, StatusWriter, set_header, write_header, write}
use opencost_ai.Server.Writer.Sync.{sent_status}
use opencost_ai.Server.World.{Config, Request, UpstreamError, bridge_error, other_error}
use opencost_ai.Server.Problem.{
  write_problem, problem_of, bridge_error_status, bridge_problem, echo_id, header_name,
  problem_content_type,
}

-- The audited status and the status on the wire of a bridge failure agree, and it is 502 or 503.
pub bridge_problem-status :
    (e : UpstreamError)
    → ((bridge_problem e).0 ≡ bridge_error_status e)
      × ((bridge_error_status e ≡ 502) ⊎ (bridge_error_status e ≡ 503))
unfolding bridge_problem bridge_error_status
bridge_problem-status (bridge_error e) = ground arith
bridge_problem-status (other_error e) = ground arith

-- A response that is not committed yet.
abbrev pub IsFresh : StatusWriter → Type 0
IsFresh s = (s.wrote_header ≡ false) × (s.inner.sent ≡ none)

-- One document went out, on a response that nothing had been sent on.
pub record Sent (items : List Item) (status : ℕ) (i : Item) (s : StatusWriter) : Type 0 where
  pub on_wire : sent_status s.inner ≡ some status
  pub labelled : s.status ≡ status
  pub committed : s.wrote_header ≡ true
  pub items_are : s.inner.items ≡ items ++ i ∷ []

pub set_header-IsFresh :
    (name value : Bytes) (s : StatusWriter)
    → IsFresh s
    → IsFresh (set_header name value s) × ((set_header name value s).inner.items ≡ s.inner.items)
unfolding set_header
set_header-IsFresh name value s h = (h, refl)

pub echo_id-IsFresh :
    (id : Bytes) (s : StatusWriter)
    → IsFresh s
    → IsFresh (echo_id id s) × ((echo_id id s).inner.items ≡ s.inner.items)
echo_id-IsFresh [] s h = (h, refl)
echo_id-IsFresh (c ∷ id) s h = set_header-IsFresh header_name (c ∷ id) s h

pub branch-IsFresh :
    (b : Bool) (s t : StatusWriter) → IsFresh s → IsFresh t → IsFresh (if b then s else t)
branch-IsFresh true s t h k = h
branch-IsFresh false s t h k = k

pub write-Sent :
    (status : ℕ) (i : Item) (s : StatusWriter)
    → IsFresh s
    → Sent s.inner.items status i (write i (write_header status s))
unfolding write write_header
write-Sent status i s (open_header, unsent) = record {
  on_wire = ground arith;
  labelled = ground arith;
  committed = ground arith;
  items_are = ground arith;
}

-- A problem document on a response that is not committed yet: one document goes out, with the
-- status that it names, which is also the one that the metrics see, if the document can be encoded.
pub write_problem-Sent :
    (cfg : Config) (r : Request) (status : ℕ) (title detail : Bytes) (s : StatusWriter)
    → cfg.encodes (Item.problem (problem_of r status title detail)) ≡ true
    → IsFresh s
    → Sent s.inner.items status
        (Item.problem (problem_of r status title detail))
        (write_problem cfg r status title detail s)
unfolding write_problem
write_problem-Sent cfg r status title detail s encodes fresh =
    let i = Item.problem (problem_of r status title detail) in
    let typed = set_header (text "Content-Type") problem_content_type s in
    let (fresh', same) = set_header-IsFresh (text "Content-Type") problem_content_type s fresh in
    let (fresh'', same') = echo_id-IsFresh r.request_id typed fresh' in
    rw encodes (rw (same' ∙ same) at (write-Sent status i (echo_id r.request_id typed) fresh''))
