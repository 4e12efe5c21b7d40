-- ===== src/Watcher/Sets.antt =====
-- Python's sets of app/watcher.py, as lists in the order of insertion.
use tv_zerodha_bot.Prelude.{
  ◌≡◌, refl, true, false, not, List, [], ◌∷◌, ◌++◌, keep, member, HasEq, ◌==◌, if◌then◌else◌, arith,
}

-- `s.add(x)` and `s.discard(x)`
abbrev pub add {ℓ} : {A : Type ℓ} ⦃e : HasEq A⦄ → A → List A → List A
add x s = if member x s then s else s ++ x ∷ []

abbrev pub discard {ℓ} : {A : Type ℓ} ⦃e : HasEq A⦄ → A → List A → List A
discard x s = keep (λ y. not (y == x)) s

abbrev pub add_all {ℓ} : {A : Type ℓ} ⦃e : HasEq A⦄ → List A → List A → List A
add_all [] s = s
add_all (x ∷ xs) s = add_all xs (add x s)

abbrev pub discard_all {ℓ} : {A : Type ℓ} ⦃e : HasEq A⦄ → List A → List A → List A
discard_all [] s = s
discard_all (x ∷ xs) s = discard_all xs (discard x s)

module _ {ℓ} {A : Type ℓ} ⦃e : HasEq A⦄ where
  pub member-discard :
      (x y : A) (xs : List A) → member x (discard y xs) ≡ (if x == y then false else member x xs)
  member-discard x y [] = ground arith
  member-discard x y (z ∷ zs) =
      ground (arith, e.same_iff z y, e.same_iff z x, e.same_iff x y, member-discard x y zs)

  member-append :
      (x y : A) (xs : List A) → member x (xs ++ y ∷ []) ≡ (if y == x then true else member x xs)
  member-append x y [] = refl
  member-append x y (z ∷ zs) = ground (arith, member-append x y zs)

  pub member-add :
      (x y : A) (xs : List A) → member x (add y xs) ≡ (if y == x then true else member x xs)
  member-add x y xs = ground (arith, e.same_iff y x, member-append x y xs)

  pub member-add_all :
      (x : A) (ys xs : List A)
      → member x (add_all ys xs) ≡ (if member x ys then true else member x xs)
  member-add_all x [] xs = refl
  member-add_all x (y ∷ ys) xs = ground (arith, member-add_all x ys (add y xs), member-add x y xs)

  pub member-discard_all :
      (x : A) (ys xs : List A)
      → member x (discard_all ys xs) ≡ (if member x ys then false else member x xs)
  member-discard_all x [] xs = refl
  member-discard_all x (y ∷ ys) xs = ground (
    arith,
    member-discard_all x ys (discard y xs),
    member-discard x y xs,
    e.same_iff x y,
    e.same_iff y x,
  )
