-- ===== src/Server/Units.antt =====
-- The configurations and the units of include/simpleserv/server/server_manager.hpp.
use simple_serv.Common.{ℕ, List, [], ◌∷◌, Bytes}

pub data ServerType : Type 0 where
  http https : ServerType

pub record ServerConfig : Type 0 where
  pub name : Bytes
  pub server_type : ServerType
  pub port : ℕ

-- The class of the object behind the pointer, with its port
pub data Server : Type 0 where
  tcp_server tls_server : ℕ → Server

pub record ServerUnit : Type 0 where
  pub name : Bytes
  pub server : Server

-- Every enumerator has its case, so nothing is thrown.
unfoldable pub configure_server : ServerConfig → Server
configure_server config = elim config.server_type [
  | http ↦ tcp_server config.port
  | https ↦ tls_server config.port
]

unfoldable pub configure_all : List ServerConfig → List ServerUnit
unfolding configure_server
configure_all [] = []
configure_all (c ∷ configs) =
    record { name = c.name; server = configure_server c } ∷ configure_all configs
