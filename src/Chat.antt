-- ===== src/Chat.antt =====
-- The chat server, Code/huqingwei/chat_room/epoll.c, and the message of chat.h.
pub mod Msg
pub mod Sql
pub mod World
pub mod Online
pub mod Account
pub mod Friend
pub mod Group
pub mod File
pub mod Tables
pub mod Server
pub mod Invariant
pub mod Mirror
