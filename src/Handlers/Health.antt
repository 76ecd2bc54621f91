-- ===== src/Handlers/Health.antt =====
-- `HealthHandler` of internal/handlers/health.go. The timestamp of the answer is not modelled.
pub mod Probe
mod Tests
use sync_bridge.Base.{Bool, true, false, ◌&&◌, ◌++◌, if◌then◌else◌}
use sync_bridge.Text.{Bytes, str}
use sync_bridge.Sql.Statement.{insert_probe, delete_probe}
use sync_bridge.Sql.Query.{select_one}
use sync_bridge.Sql.Engine.{Result, ok, err}
use sync_bridge.Handlers.Host.{Host}
use sync_bridge.Handlers.Response.{Reply, sent, health_body}

abbrev pub is_ok : {A : Type 0} → Result A → Bool
is_ok (ok a) = true
is_ok (err text) = false

abbrev health_reply : Bool → Bool → Reply
health_reply read_ok write_ok =
    if read_ok && write_ok
    then sent (record {
      status = 200;
      body = health_body 200 (str "Service is healthy") read_ok write_ok;
    })
    else sent (record {
      status = 503;
      body = health_body 503 (str "Service is unhealthy") read_ok write_ok;
    })

module _ (h : Host) (uuid_text : Bytes) where
  open h use {engine}

  -- the email of the temporary customer, from `uuid.New().String()`
  abbrev pub probe_email : Bytes
  probe_email = str "healthcheck-" ++ (uuid_text ++ str "@example.com")

  -- an error of the DELETE is dropped
  unfoldable pub clean_up : Bool → engine.State → engine.State
  clean_up true s = (engine.exec (delete_probe probe_email) s).1
  clean_up false s = s

  unfoldable pub health_handler : engine.State → Reply × engine.State
  unfolding clean_up
  health_handler s =
      let (read, s1) = engine.query select_one s in
      let (written, s2) = engine.exec (insert_probe probe_email) s1 in
      (health_reply (is_ok read) (is_ok written), clean_up (is_ok written) s2)
