-- ===== src/Lib.antt =====
-- A verification library of five programs of the repository: the chat server in
-- Code/huqingwei/chat_room, which epoll.c makes with chat.h, the thread pool in
-- Code/liuting1/lt_thread_pool, which thread_pool.c makes with queue.c, the shell
-- Code/huqingwei/study_jincheng/my_shell.c, the server of the chat room in
-- Code/liuting1/chatroom, which server_deal.c makes with MYSQL.c and dfi.h, and the ls
-- Code/huqingwei/study_file/my_ls3.c.
--
-- The chat server. main reads four database tables into linked lists, and then waits in epoll_wait.
-- A client that is readable is one `recv` of a message of fixed size (MSG of chat.h);
-- chuli_request switches on its field `cmd` and calls one handler, which searches and changes the
-- global lists, runs SQL statements, and sends messages to the sockets of clients. The parts
-- interact through the lists only: head_user, head_friends, head_user_groups and
-- head_group_relationship are the copies of the database tables, head holds the users online, and
-- head_request the requests and answers for users who are not.
--
-- The files. The state is the record `World` of Chat/World.antt: the lists, the messages that were
-- sent with their sockets, and the statements that were executed, oldest first. A handler of the
-- source is a function of the same name from the socket, the message and the state to an
-- `Outcome`: it returns (`done`), it calls exit(1) (`exited`), or it goes through a null pointer,
-- freed memory or an index out of bounds (`crashed`).
--   Chat/Msg.antt: MSG and the rows of chat.h.
--   Chat/Sql.antt: the statements of epoll.c as data, and the text that sprintf makes of them.
--   Chat/World.antt: the state, the calls of MySQL, weicha_list, and the loops that send.
--   Chat/Online.antt: charu_list, del_node and the search in the users online.
--   Chat/Account.antt: reg, login, forget_password.
--   Chat/Friend.antt: all_friends, online_friend, private_chat, add_friend, delete_friend,
--     deal_friend_request_y, deal_friend_request_n.
--   Chat/Group.antt: create_group, view_group, view_group_member, add_group,
--     deal_group_request_y, deal_group_request_n, quit_group, break_group, set_manager,
--     public_chat.
--   Chat/File.antt: get_file_name, send_file.
--   Chat/Tables.antt: read_mysql_user, read_mysql_friend, read_mysql_user_groups,
--     read_mysql_group_relationship, free_list.
--   Chat/Server.antt: chuli_request and main.
-- The folders below these files hold their lemmas. Chat/Invariant.antt and its folder are about the
-- keys of the tables, handler by handler; Chat/Mirror.antt and its folder say what the statements do
-- to the tables, and compare them with the lists; Chat/Mirror/Texts.antt has the database, which
-- reads texts. Examples.antt and its folder have concrete inputs.
--
-- The thread pool. Callers push tasks into a queue under a mutex, and the workers, each a thread in
-- thread_work, take them. Pool/Queue.antt has the functions of queue.c on nodes in a
-- heap; a pointer that is null or dangling makes a call have no result. Pool/Threads.antt has the
-- pool as a step relation: a worker stands at one of the points of thread_work at which another
-- thread can come in between, pthread_cond_wait may return at any time, and thread_pool_pushtask is
-- one step from its lock to its unlock. Tasks are numbers, as the pool only passes their addresses
-- on.
--
-- The shell. main reads a line with readline, my_shell_input puts a newline behind it, get_mingling
-- cuts it into the words of a table, and do_cmd changes the directory, or looks for `&` and for
-- redirections and pipes, cuts the array of arguments there, forks, and executes what find_command
-- finds in four directories. Shell/Input.antt has the buffer, Shell/Words.antt the table byte by
-- byte, with what is written outside of it; Shell/Command.antt has do_cmd up to the fork, with
-- pointers that may be null; Shell/Process.antt has the switch behind the fork and find_command, and
-- gives the calls of execvp with their arguments and streams; Shell/Session.antt has the loop of
-- main and the prompt.
--
-- The chat room. recv_PACK receives a packet of fixed size, deal opens a connection to the database and
-- calls one handler, which asks the database by the functions of MYSQL.c and sends packets. The
-- server keeps in memory only g, a copy of the members of groups for each user, the list of the
-- messages for users who are not online, and what the last group and the last receiver of a file
-- were. A program is a function of the state that returns or has no result (`Run` of
-- Room/Machine.antt): it has none where it writes outside of an array, fills one without room for
-- its mark, or frees a result twice. The rounds of deal_chat_group that read behind the arrays of a
-- GROUP go on with what the struct has there, and are counted (`overruns`).
--   Room/Packet.antt: PACK, the rows of the tables, and the statements.
--   Room/Machine.antt: the state, send_PACK and send_other_PACK.
--   Room/Mysql.antt, Room/Groups.antt: MYSQL.c, for users and friends, and for groups.
--   Room/Sql.antt: what the statements are taken to do.
--   Room/Offline.antt: deal_group_off, deal_fri_off, pro_off.
--   Room/Account.antt: deal_login, deal_regist, deal_repass, and the end of a connection.
--   Room/Friend.antt: the handlers of friends, of their messages and of files.
--   Room/Club.antt: the handlers of groups, and Room/ChatGroup.antt: deal_chat_group.
--   Room/Dispatch.antt: deal and recv_PACK.
--   Room/Waiting.antt and its folder follow the list of messages that wait through every function.
--
-- The ls. main chooses a function by its first argument; the functions read a directory with readdir,
-- sort or select its entries and print them. Ls.antt has main as a function from the arguments to a
-- call, the loops that sort, the letters that display_attribute makes of st_mode, the colours of
-- print_filename, and the entries that each function shows or lists. stat succeeds there; which
-- paths are directories is an argument.
--
-- Common.antt and its folder hold the tests on numbers, C strings, and the searches through lists
-- that the handlers write out: `find` is the loop with a flag and a break, `modify_first` the
-- assignment through the node found, `delete_first` the unlinking loop.
--
-- What stands for code outside of the repository: `Env` of Chat/Sql.antt says whether a call of
-- mysql_real_query or mysql_init fails, as a function of the statements executed before, and what
-- a fresh block from malloc holds. The theorems that need a database that executes everything say
-- so by `IsUp`. What the tables of the database hold after a sequence of texts is a parameter too,
-- `Mysql` of Chat/Mirror/Texts.antt. It is assumed of it that the text of a statement does what
-- the statement means where its words are plain (`IsPlain`): names of small letters and digits, no
-- blanks in the other words of a user, both not wider than the columns, and printable ASCII without
-- a quote or a backslash in the texts of messages. Of other texts nothing is assumed: sprintf
-- quotes nothing, so a quote or a backslash in a message changes the statement, MySQL compares
-- names without regard to case, and cuts or refuses words that are too long.
-- The bytes that arrive while a file is sent are a list of the results of recv. `Files` of
-- Shell/Process.antt says what readdir and open find, `Chdir` of Shell/Session.antt where chdir
-- leads; lines of readline are strings. `Database` of Room/Machine.antt is what MySQL answers in
-- the chat room, with what stands in variables that were never written (`junk`, `junk_int`) and
-- behind a pointer to the array of a function that has returned (`dead`); the theorems that need a
-- database that does what its statements say have it as `IsSql` of Room/Sql.antt. There,
-- mysql_query fails on a connection that was closed, and MYSQL_init opens it.
--
-- Bounds. The loops over lists are structural recursion here, and those of the chat room over
-- 100 numbers count the rounds that are left. The loop of Queue_destory over the nodes has a
-- number of rounds, which the length of the queue bounds. main's endless loop is a list of
-- events, so a theorem about `serve` is one about every finite run. A `char` array is the C
-- string in it: that a string fits its array is assumed, but for u_sex of chat.h, whose two
-- bytes hold no string of two characters: reg and read_mysql_user copy into it, and the model
-- has what the string is after the next field is written (sex_text). malloc of the heap returns
-- an address that was never used before and does not fail, and `size` of a Queue wraps around at
-- 2^64, which a caller of Queue_push does not reach. The pool is started once: a second
-- thread_pool_start is not a step. The loops of the shell run on the number of rounds that are
-- left, which is the length of the line or of the word, or over the array. fork and pipe
-- succeed, and a login name is short enough for the buffers of the prompt. The arrays of g in
-- the chat room have 100 elements, those of fri and GROUP 50, those of STR and STR_G 100: a write
-- outside has no result. %d of sprintf prints up to 20 digits, more than an int has.
-- Numbers in messages are integers without bounds; ntohs reads the low 16 bits.
--
-- Not modelled: sockets, epoll, the result of send, printing, memory that is not released, the
-- clients (client1.c, client_io.c, client_menu.c), server_init.c, the joins of
-- thread_pool_destroy, the size of the memory that thread_pool_pushtask allocates for a task, in
-- ls the recursion of bianli_dir, the columns, times and owners and the write behind filelist,
-- and the other programs of the repository.
pub mod Common
pub mod Chat
pub mod Pool
pub mod Shell
pub mod Room
pub mod Ls
pub mod Examples
