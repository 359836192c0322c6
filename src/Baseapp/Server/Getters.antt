-- ===== src/Baseapp/Server/Getters.antt =====
-- baseapp/server.go: the getters of a server.
use go_baseapp.Prelude.{ℕ, Option, List}
use go_baseapp.Baseapp.Config.{HttpConfig}
use go_baseapp.Baseapp.Server.{Types, Server, HttpServer, Middleware}

module _ (t : Types) where
  abbrev pub http_config : Server t → HttpConfig
  http_config s = s.config

  abbrev pub http_server : Server t → Option (HttpServer t)
  http_server s = s.server

  abbrev pub mux : Server t → List (Middleware t)
  mux s = s.mux

  abbrev pub logger : Server t → t.Logger
  logger s = s.logger

  abbrev pub registry : Server t → ℕ
  registry s = s.registry
