-- ===== src/Server/Mux.antt =====
-- net/http's ServeMux on the kinds of patterns that internal/server/server.go and cmd/gateway/main.go
-- register: a method with an exact path, and a subtree for every method. The request "*" is left out.
pub mod Laws
pub mod Served
use opencost_ai.Prelude.{
  ℕ, ◌||◌, Bool, true, false, not, ◌&&◌, List, [], ◌∷◌, ◌++◌, Option, none, some, if◌then◌else◌,
  is_nil,
}
use opencost_ai.Text.{Bytes, text, beq}
use opencost_ai.Text.Dict.{insert}
use opencost_ai.RateLimit.{RateLibrary}
use opencost_ai.Server.World.{World, respond}
use opencost_ai.Server.Writer.{Item, ResponseWriter, commit}

-- What ServeMux reads of a request's URL: the cleaned path in pieces, each unescaped, where a slash
-- at the end gives an empty last piece; whether the path is its cleaned form; the escaped URL that a
-- redirect names, and the page that it sends on GET. The statuses of the redirects to a subtree's root
-- and to the cleaned path are 301 or 307, by the version of net/http.
pub record Target : Type 0 where
  pub segments : List Bytes
  pub clean : Bool
  pub location : Bytes
  pub page : Bytes
  pub root_status : ℕ
  pub clean_status : ℕ

-- A subtree is named without its slash at the end.
pub data Pattern : Type 0 where
  exact : (method : Bytes) (segments : List Bytes) → Pattern
  subtree : (segments : List Bytes) → Pattern

unfoldable pub same_path : List Bytes → List Bytes → Bool
same_path [] [] = true
same_path [] (t ∷ ts) = false
same_path (s ∷ ss) [] = false
same_path (s ∷ ss) (t ∷ ts) = beq s t && same_path ss ts

-- Whether the path has a further piece, which may be empty, behind the subtree's.
unfoldable pub below : List Bytes → List Bytes → Bool
below [] segments = not (is_nil segments)
below (s ∷ ss) [] = false
below (s ∷ ss) (t ∷ ts) = beq s t && below ss ts

abbrev pub or_else {ℓ} : {A : Type ℓ} → Option A → Option A → Option A
or_else none y = y
or_else (some x) y = some x

abbrev pub is_none {ℓ} : {A : Type ℓ} → Option A → Bool
is_none none = true
is_none (some x) = false

abbrev pub when {ℓ} : {A : Type ℓ} → Bool → A → Option A
when b a = if b then some a else none

module _ {ℓ} {H : Type ℓ} where
  unfoldable pub find_exact : Bytes → List Bytes → List (Pattern × H) → Option H
  unfolding same_path
  find_exact method path [] = none
  find_exact method path ((exact m segments, h) ∷ ps) =
      or_else (when (beq method m && same_path segments path) h) (find_exact method path ps)
  find_exact method path ((subtree segments, h) ∷ ps) = find_exact method path ps

  unfoldable pub find_subtree : List Bytes → List (Pattern × H) → Option H
  unfolding below
  find_subtree path [] = none
  find_subtree path ((exact m segments, h) ∷ ps) = find_subtree path ps
  find_subtree path ((subtree segments, h) ∷ ps) =
      or_else (when (below segments path) h) (find_subtree path ps)

  -- GET stands for HEAD too.
  unfoldable pub by_method : Bytes → List Bytes → List (Pattern × H) → Option H
  unfolding find_exact
  by_method method path ps =
      or_else (find_exact method path ps)
        (if beq method (text "HEAD") then find_exact (text "GET") path ps else none)

  -- Whether the path is a subtree's without the slash.
  unfoldable pub is_root : List Bytes → List (Pattern × H) → Bool
  unfolding same_path
  is_root path [] = false
  is_root path ((exact m segments, h) ∷ ps) = is_root path ps
  is_root path ((subtree segments, h) ∷ ps) =
      if same_path segments path then true else is_root path ps

  -- The methods of the patterns of a path, for the Allow header.
  unfoldable pub methods_of : List Bytes → List (Pattern × H) → List Bytes
  unfolding same_path
  methods_of path [] = []
  methods_of path ((exact m segments, h) ∷ ps) =
      let rest = methods_of path ps in
      if same_path segments path
      then if beq m (text "GET") then m ∷ text "HEAD" ∷ rest else m ∷ rest
      else rest
  methods_of path ((subtree segments, h) ∷ ps) = methods_of path ps

-- What becomes of a request.
pub data Dispatch {ℓ} (H : Type ℓ) : Type ℓ where
  handled : H → Dispatch H
  moved : (status : ℕ) → Dispatch H
  not_found : Dispatch H
  not_allowed : List Bytes → Dispatch H

module _ {ℓ} {H : Type ℓ} where
  abbrev pub refused : List Bytes → Dispatch H
  refused [] = not_found
  refused (m ∷ ms) = not_allowed (m ∷ ms)

  abbrev pub found : Option H → Dispatch H → Dispatch H
  found none d = d
  found (some h) d = handled h

  -- `ServeMux.findHandler`: a pattern with the method goes first; CONNECT is not redirected to the
  -- cleaned path.
  unfoldable pub dispatch : Bytes → Target → List (Pattern × H) → Dispatch H
  unfolding by_method find_subtree is_root methods_of
  dispatch method t ps =
      let exactly = by_method method t.segments ps in
      if is_none exactly && is_root t.segments ps
      then moved t.root_status
      else if not t.clean && not (beq method (text "CONNECT"))
      then moved t.clean_status
      else found (or_else exactly (find_subtree t.segments ps)) (refused (methods_of t.segments ps))

abbrev put : Bytes → Bytes → ResponseWriter → ResponseWriter
put name value w = record w { header = insert name value w.header }

abbrev put_text : Bytes → ResponseWriter → ResponseWriter
put_text s w = record w { items = w.items ++ Item.plain s ∷ [] }

-- `http.Error`
unfoldable pub http_error : ℕ → Bytes → ResponseWriter → ResponseWriter
http_error code message w = put_text (message ++ text "\n") (
    commit code (
      put (text "X-Content-Type-Options") (text "nosniff")
        (put (text "Content-Type") (text "text/plain; charset=utf-8") w)))

-- `strings.Join(methods, ", ")`
unfoldable pub joined : List Bytes → Bytes
joined [] = []
joined (m ∷ []) = m
joined (m ∷ n ∷ ms) = m ++ (text ", " ++ joined (n ∷ ms))

-- `http.Redirect`
unfoldable pub redirect : ℕ → Bytes → Target → ResponseWriter → ResponseWriter
redirect status method t w =
    let located = put (text "Location") t.location w in
    let is_get = beq method (text "GET") in
    let sent = commit status (
      if is_get || beq method (text "HEAD")
      then put (text "Content-Type") (text "text/html; charset=utf-8") located
      else located) in
    if is_get then put_text t.page sent else sent

module _ {lib : RateLibrary} where
  abbrev send : (ResponseWriter → ResponseWriter) → World lib → World lib
  send f = respond (λ s. record s { inner = f s.inner })

  -- `ServeMux.ServeHTTP`, with the handlers by name
  unfoldable pub serve_mux :
      {H : Type 0}
      → (H → World lib → World lib)
      → Bytes
      → Target
      → List (Pattern × H)
      → World lib
      → World lib
  unfolding dispatch joined
  serve_mux run method t ps w = elim (dispatch method t ps) [
    | handled h ↦ run h w
    | moved status ↦ send (redirect status method t) w
    | not_found ↦ send (http_error 404 (text "404 page not found")) w
    | not_allowed ms ↦
        send (λ v. http_error 405 (text "Method Not Allowed") (put (text "Allow") (joined ms) v)) w
  ]
