-- ===== src/Server/Streaming/Rendered.antt =====
-- What a client reads off the frames of a stream, for each kind of text, against the bridge's chunks.
use opencost_ai.Prelude.{◌≡◌, ◌≢◌, not, ◌&&◌, List, [], ◌∷◌, ◌++◌, if◌then◌else◌, is_nil, All}
use opencost_ai.Text.{Bytes, text, beq}
use opencost_ai.Bridge.Types
use opencost_ai.Bridge.Types.{ChatStreamChunk}
use opencost_ai.Api.{SseEvent, thinking, tool_call, tool_result, token, done, error}
use opencost_ai.Server.World.{World}

-- The four texts of a stream
pub record Texts : Type 0 where
  pub thoughts : Bytes
  pub calls : List Types.ToolCall
  pub results : List Bytes
  pub answer : Bytes

abbrev no_texts : Texts
no_texts = record { thoughts = []; calls = []; results = []; answer = [] }

-- The client puts each frame in front of what the later ones hold.
abbrev pub read : List SseEvent → Texts
read [] = no_texts
read (thinking t ∷ es) = let x = read es in record x { thoughts = t ++ x.thoughts }
read (tool_call n a ∷ es) =
    let x = read es in record x { calls = record { name = n; arguments = a } ∷ x.calls }
read (tool_result t ∷ es) = let x = read es in record x { results = t ∷ x.results }
read (token t ∷ es) = let x = read es in record x { answer = t ++ x.answer }
read (done d ∷ es) = read es
read (error e ∷ es) = read es

-- The same of one chunk: its content is a result if its role is tool and it is not empty, and else
-- belongs to the answer.
abbrev pub said : ChatStreamChunk → Texts
said c =
    let content = c.message.content in
    let by_tool = beq c.message.role (text "tool") in
    record {
      thoughts = c.thinking;
      calls = c.message.tool_calls;
      results = if by_tool && not (is_nil content) then content ∷ [] else [];
      answer = if by_tool then [] else content;
    }

-- The kinds of frames; none of them is empty.
abbrev pub IsThought : SseEvent → Type 0
IsThought (thinking t) = t ≢ []
IsThought (tool_call n a) = ⊥
IsThought (tool_result t) = ⊥
IsThought (token t) = ⊥
IsThought (done d) = ⊥
IsThought (error e) = ⊥

abbrev pub IsCall : SseEvent → Type 0
IsCall (thinking t) = ⊥
IsCall (tool_call n a) = Unit
IsCall (tool_result t) = ⊥
IsCall (token t) = ⊥
IsCall (done d) = ⊥
IsCall (error e) = ⊥

abbrev pub IsContent : SseEvent → Type 0
IsContent (thinking t) = ⊥
IsContent (tool_call n a) = ⊥
IsContent (tool_result t) = t ≢ []
IsContent (token t) = t ≢ []
IsContent (done d) = ⊥
IsContent (error e) = ⊥

-- The frames of one chunk: thoughts, then calls of tools, then contents, which read as what it says.
pub record Shows (c : ChatStreamChunk) (es : List SseEvent) : Type 0 where
  pub thoughts : List SseEvent
  pub calls : List SseEvent
  pub contents : List SseEvent
  pub in_order : es ≡ thoughts ++ (calls ++ contents)
  pub are_thoughts : All IsThought thoughts
  pub are_calls : All IsCall calls
  pub are_contents : All IsContent contents
  pub reads : read es ≡ said c

-- The frames of each chunk behind those of the chunks in front of it, and nothing else
abbrev pub Rendered : List ChatStreamChunk → List SseEvent → Type 0
Rendered [] es = es ≡ []
Rendered (c ∷ cs) es =
    (fs : List SseEvent) × (gs : List SseEvent) × (es ≡ fs ++ gs) × Shows c fs × Rendered cs gs

abbrev announced : Types.ToolCall → SseEvent
announced tc = tool_call tc.name tc.arguments
