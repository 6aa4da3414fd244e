-- ===== src/Dns.antt =====
-- DNS lookup: src/dns/cdns.c. `Dns.Query` builds the query, `Dns.Name` walks over a name of a reply,
-- `Dns.Conf` reads resolv.conf, and `Dns.Lookup` asks the resolvers. A byte is a number below 256,
-- and an address is the number that its four bytes stand for.
pub mod Query
pub mod Name
pub mod Reply
pub mod Answer
pub mod Lookup
pub mod Conf
