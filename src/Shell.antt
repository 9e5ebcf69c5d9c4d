-- ===== src/Shell.antt =====
-- The shell: Code/huqingwei/study_jincheng/my_shell.c. A line of the terminal goes through the input
-- buffer (Input), is cut into words (Words) and carried out as a command (Command); Session is the
-- loop of main.
pub mod Words
pub mod Input
pub mod Command
pub mod Process
pub mod Session
