-- ===== src/Shell/Session/Prompt.antt =====
-- The directory in the prompt of main, Code/huqingwei/study_jincheng/my_shell.c.
use team_c.Common.{◌<◌, ◌≡◌, refl, sym, ◌∙◌, ap, false, [], ◌∷◌, ◌++◌, arith}
use team_c.Common.Lists.{length, length-append, drop}
use team_c.Common.Text.{CStr, codes, streq}
use team_c.Shell.Session.{home_dir, shown_directory}

drop-append : (a rest : CStr) → drop (length a) (a ++ rest) ≡ rest
drop-append [] rest = refl
drop-append (x ∷ a) rest = drop-append a rest

streq-length : (a b : CStr) → length b < length a → streq a b ≡ false
unfolding streq
streq-length [] b h = ground arith
streq-length (x ∷ a) [] h = refl
streq-length (x ∷ a) (y ∷ b) h = ground (arith, streq-length a b)

-- The prompt shows `~` and the rest of the directory behind as many bytes as the home directory has,
-- whichever bytes these are: every directory that is long enough is shown as if it lay below home.
pub shown_directory_lem :
    (login above rest : CStr)
    → length above ≡ length (home_dir login)
    → shown_directory login (above ++ rest) ≡ b'~' ∷ rest
unfolding shown_directory
shown_directory_lem login above rest e = ground (
  arith,
  length-append above rest,
  streq-length (above ++ rest) (codes "/"),
  streq-length (above ++ rest) (codes "/home"),
  ap (λ n. drop n (above ++ rest)) (sym e) ∙ drop-append above rest,
)
