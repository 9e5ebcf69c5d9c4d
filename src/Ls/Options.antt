-- ===== src/Ls/Options.antt =====
-- The arguments of Code/huqingwei/study_file/my_ls3.c: main.
use team_c.Common.{ℕ, true, ◌≡◌, ◌≢◌, List, ◌∷◌, arith}
use team_c.Common.Text.{CStr, streq}
use team_c.Ls.{Listing, is_option, any_option, by_option, listing}

-- An argument that does not start with - is no option.
by_option-other : (c : ℕ) (arg path : CStr) → c ≢ b'-' → by_option (c ∷ arg) path ≡ Listing.nothing
unfolding by_option streq
by_option-other c arg path h = ground (arith, h)

-- Where an option stands behind a path as the first argument, main lists nothing: it looks for the
-- option in argv[1] only.
pub path_first_ignored :
    (c : ℕ) (path option : CStr) (rest : List CStr)
    → c ≢ b'-'
    → is_option option ≡ true
    → listing ((c ∷ path) ∷ option ∷ rest) ≡ Listing.nothing
unfolding listing any_option
path_first_ignored c path option rest h e = ground (arith, h, e, by_option-other c path option h)
