-- ===== src/Server/Concurrent/Pick.antt =====
-- An element of a list, and what is left of the list without it.
use mathlib.Core.List.{Perm}
use mathlib.Core.List.Perm
use opencost_ai.Prelude.{◌≡◌, refl, ap, List, ◌∷◌, ◌⊎◌, inl, inr}

module _ {ℓ} {A : Type ℓ} where
  pub data Pick : A → List A → List A → Type ℓ where
    here : {x : A} {xs : List A} → Pick x (x ∷ xs) xs
    there : {x y : A} {xs rest : List A} → Pick x xs rest → Pick x (y ∷ xs) (y ∷ rest)

  -- Each of two elements is left when the other is taken.
  pub record Apart (x : A) (xs : List A) (y : A) (ys : List A) : Type ℓ where
    pub rest : List A
    pub other : Pick y xs rest
    pub this : Pick x ys rest

  pub compare :
      (x y : A) (xs rest rest' : List A)
      → Pick x xs rest
      → Pick y xs rest'
      → (x ≡ y × rest ≡ rest') ⊎ Apart x rest y rest'
  compare x y xs rest rest' here here = inl (refl, refl)
  compare x y xs rest rest' here (there q) = inr (record { rest = _; other = q; this = here })
  compare x y xs rest rest' (there p) here = inr (record { rest = _; other = here; this = p })
  compare x y _ _ _ (there {y = z} {xs = xs} {rest = rest} p) (there {rest = rest'} q) =
      elim (compare x y xs rest rest' p q) [
        | inl (e, f) ↦ inl (e, ap (λ r. z ∷ r) f)
        | inr a ↦ inr (record { rest = z ∷ a.rest; other = there a.other; this = there a.this })
      ]

  pub record Taken (x y : A) (xs last : List A) : Type ℓ where
    pub rest : List A
    pub first : Pick x xs rest
    pub second : Pick y rest last

  -- Two elements that are taken in turn may be taken in the other order.
  pub exchange :
      (x y : A) (xs rest last : List A) → Pick x xs rest → Pick y rest last → Taken y x xs last
  exchange x y _ _ last here q = record { rest = x ∷ last; first = there q; second = here }
  exchange x y _ _ _ (there {xs = xs} p) here = record { rest = xs; first = here; second = p }
  exchange x y _ _ _ (there {y = z} {xs = xs} {rest = rest} p) (there {rest = last} q) =
      let t = exchange x y xs rest last p q in
      record { rest = z ∷ t.rest; first = there t.first; second = there t.second }

  pub Pick-Perm : (x : A) (xs rest : List A) → Pick x xs rest → Perm (x ∷ rest) xs
  Pick-Perm x _ xs here = Perm.refl (x ∷ xs)
  Pick-Perm x _ _ (there {y = y} {xs = xs} {rest = rest} p) =
      Perm.trans (Perm.swap y x rest) (Perm.cons y (Pick-Perm x xs rest p))
