-- ===== src/Room.antt =====
-- The chat room of Code/liuting1/chatroom: server_deal.c, which answers packets, and MYSQL.c, which
-- asks the database.
pub mod Packet
pub mod Machine
pub mod Mysql
pub mod Groups
pub mod Sql
pub mod Offline
pub mod Account
pub mod Friend
pub mod Club
pub mod ChatGroup
pub mod Waiting
pub mod Dispatch
