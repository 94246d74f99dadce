-- ===== src/Server/Mux/Laws.antt =====
-- The handlers that ServeMux finds.
use opencost_ai.Prelude.{
  ℕ, and_parts, ◌≡◌, refl, Bool, true, false, not, ◌&&◌, List, [], ◌∷◌, Option, none, some, ◌⊎◌,
  inl, inr, Bool-cases, Option-cases, ap, sym,
}
use opencost_ai.Text.{Bytes, text, beq}
use opencost_ai.Text.Laws.{beq_iff}
use opencost_ai.Server.Mux.{
  Target, Pattern, exact, subtree, same_path, find_exact, find_subtree, by_method, is_root, is_none,
  or_else, Dispatch, handled, moved, found, refused, dispatch,
}

pub same_path-eq : (ss ts : List Bytes) → same_path ss ts ≡ true → ss ≡ ts
unfolding same_path
same_path-eq [] [] h = refl
same_path-eq [] (t ∷ ts) h = cc
same_path-eq (s ∷ ss) [] h = cc
same_path-eq (s ∷ ss) (t ∷ ts) h =
    let (head, tail) = and_parts (beq s t) _ h in
    let e = (beq_iff s t).0 head in let es = same_path-eq ss ts tail in cc

ap_exact : {m n : Bytes} {ss ts : List Bytes} → m ≡ n → ss ≡ ts → exact m ss ≡ exact n ts
ap_exact e f = cc

abbrev pub IsSame : {H : Type 0} → Option H → Option H → Type 0
IsSame x y = x ≡ y

pub absent_some : {H : Type 0} {h : H} → IsSame none (some h) → ⊥
absent_some e = cc

clean_of : (a b : Bool) → (not a && not b) ≡ false → (a ≡ true) ⊎ (b ≡ true)
clean_of true b h = inl refl
clean_of false true h = inr refl
clean_of false false h = cc

module _ {H : Type 0} where
  -- The table has this entry.
  abbrev pub Has : Pattern → H → List (Pattern × H) → Type 0
  Has p h [] = ⊥
  Has p h ((q, k) ∷ ps) = ((q ≡ p) × (k ≡ h)) ⊎ Has p h ps

  some_of : {a b : H} → IsSame (some a) (some b) → a ≡ b
  some_of e = cc

  find_exact-Has :
      (m : Bytes) (path : List Bytes) (ps : List (Pattern × H)) (h : H)
      → find_exact m path ps ≡ some h
      → Has (exact m path) h ps
  unfolding find_exact
  find_exact-Has m path [] h e = cc
  find_exact-Has m path ((subtree segments, k) ∷ ps) h e = inr (find_exact-Has m path ps h e)
  find_exact-Has m path ((exact n segments, k) ∷ ps) h e =
      elim (Bool-cases (beq m n && same_path segments path)) [
        | inl b ↦
            let (same_method, same) = and_parts _ _ b in
            inl (
              ap_exact (sym ((beq_iff m n).0 same_method)) (same_path-eq segments path same),
              some_of (rw b at e),
            )
        | inr b ↦ inr (find_exact-Has m path ps h (rw b at e))
      ]

  pub by_method-Has :
      (m : Bytes) (path : List Bytes) (ps : List (Pattern × H)) (h : H)
      → by_method m path ps ≡ some h
      → Has (exact m path) h ps ⊎ ((m ≡ text "HEAD") × Has (exact (text "GET") path) h ps)
  unfolding by_method
  by_method-Has m path ps h e = elim (Option-cases (find_exact m path ps)) [
    | inr (k, f) ↦ inl (rw (some_of (rw f at e)) at (find_exact-Has m path ps k f))
    | inl f ↦ elim (Bool-cases (beq m (text "HEAD"))) [
      | inl b ↦
          inr
            ((beq_iff m (text "HEAD")).0 b, find_exact-Has (text "GET") path ps h (rw (f, b) at e))
      | inr b ↦ absurd (absent_some (rw (f, b) at e))
    ]
  ]

  abbrev IsDispatch : Dispatch H → Dispatch H → Type 0
  IsDispatch x y = x ≡ y

  handler_of_handled : {a b : H} → IsDispatch (handled a) (handled b) → a ≡ b
  handler_of_handled e = cc

  refused_not : (ms : List Bytes) {h : H} → IsDispatch (refused ms) (handled h) → ⊥
  refused_not [] e = cc
  refused_not (m ∷ ms) e = cc

  found_or :
      (x y : Option H) (ms : List Bytes) (h : H)
      → IsDispatch (found (or_else x y) (refused ms)) (handled h)
      → (x ≡ some h) ⊎ (y ≡ some h)
  found_or (some k) y ms h e = inl (ap some (handler_of_handled e))
  found_or none (some k) ms h e = inr (ap some (handler_of_handled e))
  found_or none none ms h e = absurd (refused_not ms e)

  moved_not : {status : ℕ} {h : H} → IsDispatch (moved status) (handled h) → ⊥
  moved_not e = cc

  -- The patterns that may have taken a request, whose path is clean then.
  pub dispatch-found :
      (m : Bytes) (t : Target) (ps : List (Pattern × H)) (h : H)
      → dispatch m t ps ≡ handled h
      → ((t.clean ≡ true) ⊎ (m ≡ text "CONNECT"))
        × ((by_method m t.segments ps ≡ some h) ⊎ (find_subtree t.segments ps ≡ some h))
  unfolding dispatch
  dispatch-found m t ps h e =
      elim (Bool-cases (is_none (by_method m t.segments ps) && is_root t.segments ps)) [
        | inl root ↦ absurd (moved_not (rw root at e))
        | inr root ↦ elim (Bool-cases (not t.clean && not (beq m (text "CONNECT")))) [
          | inl dirty ↦ absurd (moved_not (rw (root, dirty) at e))
          | inr dirty ↦ (
            elim (clean_of t.clean _ dirty) [
              | inl c ↦ inl c
              | inr c ↦ inr ((beq_iff m (text "CONNECT")).0 c)
            ],
            found_or _ _ _ h (rw (root, dirty) at e),
          )
        ]
      ]
