-- ===== src/Server/New/Routing.antt =====
-- Which requests the routes of `New` take.
use opencost_ai.Prelude.{◌≡◌, ◌↔◌, refl, sym, true, List, [], ◌∷◌, some, ◌⊎◌, inl, inr}
use opencost_ai.Text.{Bytes, text, beq}
use opencost_ai.Server.Mux.{
  Target, exact, handled, dispatch, by_method, find_exact, find_subtree, is_root, same_path,
}
use opencost_ai.Server.Mux.Laws.{Has, IsSame, absent_some, by_method-Has, dispatch-found}
use opencost_ai.Server.Routes.{Route, ask_route, tools_route, models_route}
use opencost_ai.Server.New.{api_patterns}

abbrev pub method_of : Route → Bytes
method_of ask_route = text "POST"
method_of tools_route = text "GET"
method_of models_route = text "GET"

abbrev pub path_of : Route → List Bytes
path_of ask_route = text "v1" ∷ text "ask" ∷ []
path_of tools_route = text "v1" ∷ text "tools" ∷ []
path_of models_route = text "v1" ∷ text "models" ∷ []

-- The route's method, or HEAD for GET.
abbrev pub HasMethod : Bytes → Route → Type 0
HasMethod m route = (m ≡ method_of route) ⊎ ((m ≡ text "HEAD") × (method_of route ≡ text "GET"))

pub record IsRouted (m : Bytes) (t : Target) (route : Route) : Type 0 where
  pub clean : t.clean ≡ true
  pub path : t.segments ≡ path_of route
  pub method : HasMethod m route

entry_parts : {m n : Bytes} {ss ts : List Bytes} → exact m ss ≡ exact n ts → (n ≡ m) × (ts ≡ ss)
entry_parts e = (cc, cc)

entry :
    (m : Bytes) (path : List Bytes) (route : Route)
    → Has (exact m path) route api_patterns
    → (m ≡ method_of route) × (path ≡ path_of route)
unfolding api_patterns
entry m path route (inl (e, f)) = rw⁻¹ f (entry_parts e)
entry m path route (inr (inl (e, f))) = rw⁻¹ f (entry_parts e)
entry m path route (inr (inr (inl (e, f)))) = rw⁻¹ f (entry_parts e)
entry m path route (inr (inr (inr x))) = absurd x

by_method-HasMethod :
    (m : Bytes) (path : List Bytes) (route : Route)
    → by_method m path api_patterns ≡ some route
    → (path ≡ path_of route) × HasMethod m route
by_method-HasMethod m path route e = elim (by_method-Has m path api_patterns route e) [
  | inl has ↦ let (method, same) = entry m path route has in (same, inl method)
  | inr (head, has) ↦
      let (method, same) = entry (text "GET") path route has in (same, inr (head, sym method))
]

not_connect : (m : Bytes) (route : Route) → HasMethod m route → m ≡ text "CONNECT" → ⊥
unfolding text
not_connect m ask_route (inl e) f = cc
not_connect m ask_route (inr (e, g)) f = cc
not_connect m tools_route (inl e) f = cc
not_connect m tools_route (inr (e, g)) f = cc
not_connect m models_route (inl e) f = cc
not_connect m models_route (inr (e, g)) f = cc

no_subtree :
    (path : List Bytes) (route : Route) → IsSame (find_subtree path api_patterns) (some route) → ⊥
unfolding find_subtree api_patterns
no_subtree path route e = absent_some e

dispatch-IsRouted :
    (m : Bytes) (t : Target) (route : Route)
    → dispatch m t api_patterns ≡ handled route
    → IsRouted m t route
dispatch-IsRouted m t route e =
    let (cleaned, taken) = dispatch-found m t api_patterns route e in
    elim taken [
      | inr sub ↦ absurd (no_subtree t.segments route sub)
      | inl exactly ↦
          let (path, method) = by_method-HasMethod m t.segments route exactly in
          record {
            clean = elim cleaned [ inl c ↦ c | inr c ↦ absurd (not_connect m route method c) ];
            path = path;
            method = method;
          }
    ]

IsRouted-dispatch :
    (m : Bytes) (t : Target) (route : Route)
    → IsRouted m t route
    → dispatch m t api_patterns ≡ handled route
unfolding dispatch by_method find_exact find_subtree same_path is_root api_patterns text beq
IsRouted-dispatch m t ask_route h = elim h.method [
  | inl e ↦ rw (dispatch, h.clean, h.path, e) refl
  | inr (e, f) ↦ cc
]
IsRouted-dispatch m t tools_route h = elim h.method [
  | inl e ↦ rw (dispatch, h.clean, h.path, e) refl
  | inr (e, f) ↦ rw (dispatch, h.clean, h.path, e) refl
]
IsRouted-dispatch m t models_route h = elim h.method [
  | inl e ↦ rw (dispatch, h.clean, h.path, e) refl
  | inr (e, f) ↦ rw (dispatch, h.clean, h.path, e) refl
]

-- The mux of `New` gives a request to a route exactly if its path is clean and the route's, and its
-- method is the route's, where a route for GET takes HEAD too.
pub dispatch-IsRouted_iff :
    (m : Bytes) (t : Target) (route : Route)
    → (dispatch m t api_patterns ≡ handled route) ↔ IsRouted m t route
dispatch-IsRouted_iff m t route = (dispatch-IsRouted m t route, IsRouted-dispatch m t route)
