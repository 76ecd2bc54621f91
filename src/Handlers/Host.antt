-- ===== src/Handlers/Host.antt =====
-- What the handlers take from other packages: Unicode tables, the validator, the database, fresh
-- UUIDs and the text that `json.Marshal` makes of raw messages.
use sync_bridge.Base.{Option, List}
use sync_bridge.Text.{Bytes, Unicode}
use sync_bridge.Json.{Json}
use sync_bridge.Dto.Rules.{Validator, IsValidator}
use sync_bridge.Sql.Engine.{Engine, IsSqlite}

pub record Host : Type 1 where
  pub unicode : Unicode
  pub validator : Validator
  pub engine : Engine
  -- the 16 bytes of `uuid.New()`
  pub uuid : engine.State → Bytes
  pub marshal : List Json → Option Bytes

pub record IsHost (h : Host) : Type 1 where
  pub validates : IsValidator h.validator
  pub stores : IsSqlite h.engine
