-- ===== src/Shell/Input.antt =====
-- The input buffer of main in Code/huqingwei/study_jincheng/my_shell.c, 256 bytes long: a line of
-- readline is copied into it, and my_shell_input puts a newline behind it.
use team_c.Common.{◌+◌, ltb, if◌then◌else◌, [], ◌∷◌, ◌++◌}
use team_c.Common.Lists.{length}
use team_c.Common.Text.{CStr}

pub data Input : Type 0 where
  -- a write behind the end of the buffer
  overflow : Input
  -- the message that the command is too long, and the buffer as it was
  too_long : CStr → Input
  line : CStr → Input

-- my_shell_input: the newline goes to buf[len], the zero to buf[len + 1].
unfoldable pub my_shell_input : CStr → Input
my_shell_input buf =
    if ltb 256 (length buf)
    then Input.too_long buf
    else if ltb (length buf + 1) 256
    then Input.line (buf ++ b'\n' ∷ [])
    else Input.overflow

-- strcpy(buf, temp), and my_shell_input
unfoldable pub read_line : CStr → Input
read_line temp = if ltb (length temp) 256 then my_shell_input temp else Input.overflow
