-- ===== src/Routing.antt =====
-- routing: which broker a message goes to.
pub mod Rendezvous
pub mod Choice
