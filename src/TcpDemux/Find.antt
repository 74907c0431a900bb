-- ===== src/TcpDemux/Find.antt =====
-- What the searches of `tcp_input` find, against a specification on lists.
use tun2socket_lwip.Prelude.{
  ◌≡◌, refl, ap, sym, Bool, true, Option, none, some, List, [], ◌∷◌, ◌++◌, append-nil, append_assoc,
  arith, if◌then◌else◌, Bool-cases, Option-cases, inl, inr,
}
use tun2socket_lwip.TcpDemux.{search_front, search_first}

module _ {A : Type 0} (f : A → Bool) where
  -- a list without its first match
  unfoldable pub without_first : List A → List A
  without_first [] = []
  without_first (x ∷ xs) = let rest = without_first xs in if f x then xs else x ∷ rest

  -- the first match in front
  abbrev pub fronted : Option A → List A → List A
  fronted none xs = xs
  fronted (some x) xs = x ∷ without_first xs

  search_front-seen :
      (seen xs : List A)
      → search_front f seen xs ≡ (
        search_first f xs,
        elim (search_first f xs) [ none ↦ seen ++ xs | some x ↦ x ∷ (seen ++ without_first xs) ],
      )
  unfolding search_front search_first without_first
  search_front-seen seen [] = ap (λ r. (none, r)) (sym (append-nil seen))
  search_front-seen seen (x ∷ xs) =
      let rest = search_front-seen (seen ++ (x ∷ [])) xs in
      let one = append_assoc seen (x ∷ []) xs in
      let two = append_assoc seen (x ∷ []) (without_first xs) in
      elim (Bool-cases (f x)) [
        | inl hit ↦ ground (arith, hit)
        | inr miss ↦ elim (Option-cases (search_first f xs)) [
          | inl gone ↦ ground (arith, miss, gone, rest, one, two)
          | inr (y, found) ↦ ground (arith, miss, found, rest, one, two)
        ]
      ]

  -- The search finds what `search_first` finds, and moves that block to the front of the others, whose
  -- order stays; if none matches the list stays.
  pub search_front_lem :
      (xs : List A) → search_front f [] xs ≡ (search_first f xs, fronted (search_first f xs) xs)
  search_front_lem xs = elim (Option-cases (search_first f xs)) [
    | inl gone ↦ ground (arith, gone, search_front-seen [] xs)
    | inr (y, found) ↦ ground (arith, found, search_front-seen [] xs)
  ]

  -- a match in the middle is found, or one before it
  pub search_first-middle :
      (front : List A) (y : A) (back : List A)
      → f y ≡ true
      → (z : A) × (search_first f (front ++ (y ∷ back)) ≡ some z) × (f z ≡ true)
  unfolding search_first
  search_first-middle [] y back e = (y, rw e refl, e)
  search_first-middle (x ∷ xs) y back e = elim (Bool-cases (f x)) [
    | inl hit ↦ (x, rw hit refl, hit)
    | inr miss ↦ let later = search_first-middle xs y back e in (later.0, rw miss later.1, later.2)
  ]
