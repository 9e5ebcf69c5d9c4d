-- ===== src/Ls/Missed.antt =====
-- The directories that bianli_dir_R of Code/huqingwei/study_file/my_ls3.c comes to.
use team_c.Common.{
  ℕ, zero, suc, Bool, true, not, ◌≡◌, refl, ap, List, [], ◌∷◌, ◌++◌, map, Bool-cases, inl, inr,
  arith,
}
use team_c.Common.Lists.{All, filter}
use team_c.Common.Text.{CStr, codes, streq}
use team_c.Ls.{is_greater, pass, sort_rounds, sort_names, path_of, collect, dir_list}

module _ (P : CStr → Type 0) where
  pass-All : (n : ℕ) (names : List CStr) → All P names → All P (pass n names)
  unfolding pass
  pass-All zero names h = h
  pass-All (suc n) [] h = tt
  pass-All (suc n) (x ∷ []) h = h
  pass-All (suc n) (x ∷ y ∷ names) (hx, (hy, hs)) = elim (Bool-cases (is_greater x y)) [
    | inl e ↦ rw (pass, e) (hy, pass-All n (x ∷ names) (hx, hs))
    | inr e ↦ rw (pass, e) (hx, pass-All n (y ∷ names) (hy, hs))
  ]

  sort_rounds-All : (n : ℕ) (names : List CStr) → All P names → All P (sort_rounds n names)
  unfolding sort_rounds
  sort_rounds-All zero names h = h
  sort_rounds-All (suc n) names h = sort_rounds-All n (pass n names) (pass-All n names h)

filter_keeps :
    (p : CStr → Bool) (names : List CStr) → All (λ x. p x ≡ true) names → filter p names ≡ names
filter_keeps p [] h = refl
filter_keeps p (x ∷ names) (hx, h) = rw (hx) (ap (λ xs. x ∷ xs) (filter_keeps p names h))

-- No path is "..", as each has a slash.
abbrev IsPath : CStr → Type 0
IsPath path = not (streq path (codes "..")) ≡ true

path_of-IsPath : (dirname name : CStr) → IsPath (path_of dirname name)
unfolding streq
path_of-IsPath [] name = refl
path_of-IsPath (x ∷ []) name = ground arith
path_of-IsPath (x ∷ y ∷ []) name = ground arith
path_of-IsPath (x ∷ y ∷ z ∷ dirname) name = ground arith

module _ (is_dir : CStr → Bool) (dirname : CStr) where
  collect_lem :
      (filepath last : CStr) (names : List CStr)
      → collect is_dir dirname filepath (names ++ last ∷ [])
        ≡ filter is_dir (filepath ∷ map (path_of dirname) names)
  unfolding collect
  collect_lem filepath last [] = refl
  collect_lem filepath last (name ∷ names) = rw (collect_lem (path_of dirname name) last names) refl

  filter-IsPath : (names : List CStr) → All IsPath (filter is_dir (map (path_of dirname) names))
  filter-IsPath [] = tt
  filter-IsPath (name ∷ names) = elim (Bool-cases (is_dir (path_of dirname name))) [
    | inl e ↦ rw (e) (path_of-IsPath dirname name, filter-IsPath names)
    | inr e ↦ rw (e) (filter-IsPath names)
  ]

  -- For a directory with two entries at least, bianli_dir_R lists the directories among them in the
  -- order of sort_names, but it asks about the first entry twice and about the last one never; the
  -- entry ".." is not left out.
  pub dir_list_lem :
      (name last : CStr) (names : List CStr)
      → dir_list is_dir dirname (name ∷ names ++ last ∷ [])
        ≡ sort_names (filter is_dir (map (path_of dirname) (name ∷ name ∷ names)))
  unfolding dir_list sort_names
  dir_list_lem name last names =
      rw (dir_list, collect_lem (path_of dirname name) last (name ∷ names))
        (filter_keeps _ _ (sort_rounds-All IsPath _ _ (filter-IsPath (name ∷ name ∷ names))))
