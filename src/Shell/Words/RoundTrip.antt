-- ===== src/Shell/Words/RoundTrip.antt =====
-- Lines that are printed from words, and cut into words again by get_mingling of
-- Code/huqingwei/study_jincheng/my_shell.c.
use team_c.Common.{
  ◌≤◌, ◌<◌, ◌≢◌, some, ℕ, suc, ◌≡◌, false, refl, ◌∙◌, ap, List, [], ◌∷◌, ◌++◌, append_assoc,
  append-nil, arith, if◌then◌else◌,
}
use team_c.Common.Lists.{All, All-append, length-append, length}
use team_c.Common.Text.{CStr}
use team_c.Shell.Words.{Parsed, is_separator, get_mingling, argvlist}
use team_c.Shell.Words.Rows.{IsCStr, get_mingling-split}
use team_c.Shell.Words.Split.{split, split_from, split_from-separator, split_from-byte}

-- A word that a line can give back: without blanks and newlines.
abbrev pub IsWord : CStr → Type 0
IsWord w = All (λ x. is_separator x ≡ false) w

-- The words of a command with a blank between any two, without the newline.
unfoldable pub join : CStr → List CStr → CStr
join w [] = w
join w (v ∷ ws) = w ++ b' ' ∷ join v ws

split_from-append : (v w s : CStr) → IsWord w → split_from v (w ++ s) ≡ split_from (v ++ w) s
split_from-append v [] s h = rw append-nil refl
split_from-append v (x ∷ w) s (h, hs) =
    split_from-byte v x (w ++ s) h ∙ split_from-append (v ++ x ∷ []) w s hs ∙ rw append_assoc refl

split_from-nil : (w : CStr) → split_from w [] ≡ []
unfolding split_from
split_from-nil w = refl

pub split-join :
    (w : CStr) (ws : List CStr)
    → IsWord w
    → All IsWord ws
    → split (join w ws ++ b'\n' ∷ []) ≡ w ∷ ws
unfolding join
split-join w [] h hs =
    split_from-append [] w (b'\n' ∷ []) h
    ∙ split_from-separator w b'\n' [] refl
    ∙ ap (λ us. w ∷ us) (split_from-nil [])
split-join w (v ∷ ws) h (hv, hs) =
    ap split (append_assoc w (b' ' ∷ join v ws) (b'\n' ∷ []))
    ∙ split_from-append [] w (b' ' ∷ (join v ws ++ b'\n' ∷ [])) h
    ∙ split_from-separator w b' ' (join v ws ++ b'\n' ∷ []) refl
    ∙ ap (λ us. w ∷ us) (split-join v ws hv hs)

-- The number of blanks and newlines.
unfoldable pub separators : CStr → ℕ
separators [] = 0
separators (x ∷ s) = let n = separators s in if is_separator x then suc n else n

pub length-split_from : (w s : CStr) → length (split_from w s) ≡ separators s
unfolding split_from separators
length-split_from w [] = refl
length-split_from w (x ∷ s) =
    ground (arith, length-split_from [] s, length-split_from (w ++ x ∷ []) s)

join-IsCStr : (w : CStr) (ws : List CStr) → IsCStr w → All IsCStr ws → IsCStr (join w ws)
unfolding join
join-IsCStr w [] h hs = h
join-IsCStr w (v ∷ ws) h (hv, hs) =
    All-append (λ x. x ≢ 0) w (b' ' ∷ join v ws) h (ground arith, join-IsCStr v ws hv hs)

-- Words without blanks, newlines and zeros, at most 100 of them, on a line of at most 254 bytes with
-- one blank between any two and a newline at the end: get_mingling reads these words from it.
pub get_mingling-join :
    (w : CStr) (ws : List CStr)
    → All IsWord (w ∷ ws)
    → All IsCStr (w ∷ ws)
    → length (join w ws) < 255
    → length (w ∷ ws) ≤ 100
    → (p : Parsed) × (get_mingling (join w ws ++ b'\n' ∷ []) ≡ some p)
      × (p.argc ≡ length (w ∷ ws))
      × (argvlist p.argc 0 p.argv ≡ w ∷ ws)
get_mingling-join w ws (hw, hws) (zw, zws) l m =
    let words = split-join w ws hw hws in
    let zeros =
      All-append (λ x. x ≢ 0) (join w ws) (b'\n' ∷ []) (join-IsCStr w ws zw zws)
        (ground arith, tt) in
    let short : length (join w ws ++ b'\n' ∷ []) < 256 =
      omega (arith, length-append (join w ws) (b'\n' ∷ [])) in
    let (p, g, n, a) = get_mingling-split (join w ws ++ b'\n' ∷ []) zeros short (rw words m) in
    (p, g, n ∙ ap length words, a ∙ words)
