-- ===== src/Server.antt =====
-- From the network to the handler: connections, workers, the accept loops, and the program.
pub mod Connection
pub mod Accept
pub mod Pipeline
pub mod Pool
pub mod Tls
pub mod Threadpool
pub mod Units
pub mod Manager
pub mod Program
pub mod Start
