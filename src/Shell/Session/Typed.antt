-- ===== src/Shell/Session/Typed.antt =====
-- What a line that is typed leads to: the loop of main in
-- Code/huqingwei/study_jincheng/my_shell.c.
use team_c.Common.{
  suc, ◌≤◌, ◌<◌, ◌≡◌, ◌≢◌, ◌↔◌, ◌⊎◌, refl, ◌∙◌, true, false, List, [], ◌∷◌, ◌++◌, arith,
}
use team_c.Common.Lists.{All, length, length-append}
use team_c.Common.Text.{CStr, codes, streq}
use team_c.Shell.Words.Split.{split}
use team_c.Shell.Words.Parse.{get_mingling-none}
use team_c.Shell.Words.Rows.{IsCStr, get_mingling-split}
use team_c.Shell.Words.RoundTrip.{IsWord, join, get_mingling-join, separators, length-split_from}
use team_c.Shell.Command.{Action, is_empty_word, cd, do_cmd}
use team_c.Shell.Session.{Turn, turn}
use team_c.Shell.Session.Line.{
  is_exit, newline, obey-words, obey-not_fault, turn-short, turn-long, separators-snoc,
  IsCStr-newline,
}

module _ (temp : CStr) where
  newline_short : length temp < 255 → length (newline temp) < 256
  newline_short h = omega (arith, length-append temp (b'\n' ∷ []))

  words_number : length (split (newline temp)) ≡ suc (separators temp)
  words_number = length-split_from [] (newline temp) ∙ separators-snoc temp

  turn-many :
      length temp < 255 → is_exit temp ≡ false → 100 ≤ separators temp → turn temp ≡ Turn.fault
  turn-many h e l =
      turn-short temp h
      ∙ rw (e, get_mingling-none (newline temp) (newline_short h) (omega (arith, words_number)))
          refl

  turn-few : IsCStr temp → length temp < 255 → separators temp < 100 → turn temp ≢ Turn.fault
  turn-few z h l =
      let (p, e, _, _) =
        get_mingling-split (newline temp) (IsCStr-newline temp z) (newline_short h)
          (omega (arith, words_number)) in
      ground (arith, turn-short temp h, e, obey-not_fault p)

  turn-exit : length temp < 255 → is_exit temp ≡ true → turn temp ≢ Turn.fault
  turn-exit h e = ground (arith, turn-short temp h)

-- A line leads to a write outside of the input buffer or of the table of words exactly when it has
-- 255 bytes or more, or has 100 blanks and newlines or more and is not one of the two that end the
-- shell.
pub turn-fault :
    (temp : CStr)
    → IsCStr temp
    → (turn temp ≡ Turn.fault)
      ↔ ((255 ≤ length temp) ⊎ ((is_exit temp ≡ false) × (100 ≤ separators temp)))
turn-fault temp z = ground (arith, turn-long temp, turn-many temp, turn-few temp z, turn-exit temp)

-- Words without blanks, newlines and zeros, the first of them not empty, at most 100 of them, typed
-- with one blank between any two on a line of at most 254 bytes that is not exit or logout: do_cmd
-- gets exactly these words.
pub turn-join :
    (w : CStr) (ws : List CStr)
    → All IsWord (w ∷ ws)
    → All IsCStr (w ∷ ws)
    → is_empty_word w ≡ false
    → is_exit (join w ws) ≡ false
    → length (join w ws) < 255
    → length (w ∷ ws) ≤ 100
    → turn (join w ws) ≡ Turn.does (do_cmd (w ∷ ws))
turn-join w ws h z n e l m =
    let (p, g, _, a) = get_mingling-join w ws h z l m in
    turn-short _ l ∙ rw (e, g) (obey-words p w ws a n)

-- `cd`, two blanks and a directory, on a line of at most 254 bytes: the word between the blanks is
-- empty, and the shell goes to the home directory instead.
pub cd_two_blanks :
    (path : CStr)
    → IsWord path
    → IsCStr path
    → length path < 251
    → turn (codes "cd  " ++ path) ≡ Turn.does Action.go_home
unfolding join do_cmd cd streq
cd_two_blanks path h z l =
    turn-join (codes "cd") ([] ∷ path ∷ []) ((refl, (refl, tt)), (tt, (h, tt)))
      ((ground arith, (ground arith, tt)), (tt, (z, tt))) refl refl (omega arith) (ground arith)
