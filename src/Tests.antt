-- ===== src/Tests.antt =====
-- Runs of the properties on concrete inputs, one for each, and the data that they share: casts and
-- texts that write numbers in unary, a value of several types, a reactor with two sockets, a server
-- with one method, a client, an OpenSSL and a system that give what they are told to.
mod Texts
mod Values
mod Reactors
mod Messages
mod Names
mod Servers
mod Pools
mod Clients
mod Tls
mod Net
